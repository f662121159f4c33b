-- ===== src/Prelude/Texts.antt =====
-- Whole texts: equality (its laws are the library's) and the pieces of an f-string put together.
use Prim.Native.String.{String, ◌++◌}
use mathlib.Core.Bool.{Bool, true}
use mathlib.Core.List.{List, [], ◌∷◌}
use mathlib.Core.Path.{◌≡◌, refl}
use text.Mathlib.Text
use text.Mathlib.TextEquality.{eq_iff}

infix 50 ◌==◌
abbrev pub ◌==◌ : String → String → Bool
◌==◌ = Text.◌==◌

pub str_eq_self : (s : String) → (s == s) ≡ true
str_eq_self s = (eq_iff s s).1 refl

-- f"{a}{b}…"
unfoldable pub format : List String → String
format [] = ""
format (s ∷ ss) = s ++ format ss

-- ":".join(parts)
unfoldable pub join_colon : List String → String
join_colon [] = ""
join_colon (s ∷ []) = s
join_colon (s ∷ t ∷ ss) = s ++ (":" ++ join_colon (t ∷ ss))
