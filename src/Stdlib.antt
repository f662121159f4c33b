-- ===== src/Stdlib.antt =====
-- What the program uses of Python's own library on values: decimal numbers, `str`, and the short
-- hash of src/costanza/ids.py. The `repr` of a text, `json.dumps`, SHA-256 and `int` of a text are
-- parameters.
use Prim.Native.Nat.{◌/◌, ◌%◌}
use Prim.Native.Char.{code}
use Prim.Native.String.{◌++◌, slice}
use costanza.Prelude.{
  ℕ, zero, suc, ◌+◌, String, true, false, Option, List, [], ◌∷◌, ltb, eqb, if◌then◌else◌, format,
}
use costanza.Prelude.{◌≡◌, refl}
use costanza.Json.{
  Json, null, bool, int, str, arr, obj, Items, nil, cons, Fields, end, field, ℤ, pos, negsuc,
}

pub record Stdlib : Type 0 where
  pub repr_text : String → String
  pub dumps : Json → String
  pub sha256_hex : String → String
  pub int_of_text : String → Option ℤ

digit : ℕ → String
digit n = slice "0123456789" n (n + 1)

decimal_loop : ℕ → ℕ → String → String
decimal_loop zero n acc = acc
decimal_loop (suc fuel) n acc =
    let rest = decimal_loop fuel (n / 10) (digit (n % 10) ++ acc) in
    if ltb n 10 then digit n ++ acc else rest

-- str(n) for a natural number.
unfoldable pub decimal : ℕ → String
unfolding decimal_loop digit
decimal n = decimal_loop (suc n) n ""

unfoldable pub decimal_int : ℤ → String
unfolding decimal
decimal_int (pos n) = decimal n
decimal_int (negsuc n) = "-" ++ decimal (suc n)

-- f"{n:02d}"
unfoldable pub two_digits : ℤ → String
unfolding decimal
two_digits (pos n) = if ltb n 10 then "0" ++ decimal n else decimal n
two_digits (negsuc n) = "-" ++ decimal (suc n)

unfoldable mutual
  unfolding decimal_int format

  -- repr(v)
  pub repr : Stdlib → Json → String
  repr lib null = "None"
  repr lib (bool true) = "True"
  repr lib (bool false) = "False"
  repr lib (int n) = decimal_int n
  repr lib (str s) = lib.repr_text s
  repr lib (arr xs) = format ("[" ∷ repr_items lib xs ∷ "]" ∷ [])
  repr lib (obj fs) = format ("{" ∷ repr_fields lib fs ∷ "}" ∷ [])

  pub repr_items : Stdlib → Items → String
  repr_items lib nil = ""
  repr_items lib (cons x nil) = repr lib x
  repr_items lib (cons x (cons y ys)) = format (repr lib x ∷ ", " ∷ repr_items lib (cons y ys) ∷ [])

  pub repr_fields : Stdlib → Fields → String
  repr_fields lib end = ""
  repr_fields lib (field k v end) = format (lib.repr_text k ∷ ": " ∷ repr lib v ∷ [])
  repr_fields lib (field k v (field j w fs)) =
      format (lib.repr_text k ∷ ": " ∷ repr lib v ∷ ", " ∷ repr_fields lib (field j w fs) ∷ [])

-- str(v)
unfoldable pub py_str : Stdlib → Json → String
unfolding repr
py_str lib (str s) = s
py_str lib (null) = "None"
py_str lib (bool b) = repr lib (bool b)
py_str lib (int n) = repr lib (int n)
py_str lib (arr xs) = repr lib (arr xs)
py_str lib (obj fs) = repr lib (obj fs)

-- ids.py: the first 16 hex digits of the hash of the canonical JSON text.
unfoldable pub sha16 : Stdlib → Json → String
sha16 lib payload = slice (lib.sha256_hex (lib.dumps payload)) 0 16

-- list(s): the one-character texts.
unfoldable pub chars : String → List String
chars String.[] = []
chars (String.◌∷◌ c s) = (String.◌∷◌ c String.[]) ∷ chars s

-- s.split(":", 1)[0]
unfoldable pub before_colon : String → String
before_colon String.[] = String.[]
before_colon (String.◌∷◌ c s) =
    let rest = before_colon s in if eqb (code c) b':' then String.[] else String.◌∷◌ c rest

dec_test : decimal 2016 ≡ "2016"
unfolding decimal
dec_test = refl

before_colon_test : before_colon "digest:a:b" ≡ "digest"
unfolding before_colon
before_colon_test = refl
