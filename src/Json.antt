-- ===== src/Json.antt =====
-- JSON values as Python holds them (objects keep their order; a number is an integer), with
-- `dict.get`, `dict.setdefault` and truth testing.
use costanza.Prelude.{ℕ, zero, suc, String, Bool, true, false, not, ◌==◌, eqb, if◌then◌else◌}

-- `negsuc n` is -(n + 1).
pub data ℤ : Type 0 where
  pos : ℕ → ℤ
  negsuc : ℕ → ℤ

abbrev pub int_eq : ℤ → ℤ → Bool
int_eq (pos a) (pos b) = eqb a b
int_eq (negsuc a) (negsuc b) = eqb a b
int_eq (pos a) (negsuc b) = false
int_eq (negsuc a) (pos b) = false

abbrev pub to_ℤ_truthy : ℤ → Bool
to_ℤ_truthy (pos zero) = false
to_ℤ_truthy (pos (suc n)) = true
to_ℤ_truthy (negsuc n) = true

mutual
  pub data Json : Type 0 where
    null : Json
    bool : Bool → Json
    int : ℤ → Json
    str : String → Json
    arr : Items → Json
    obj : Fields → Json

  pub data Items : Type 0 where
    nil : Items
    cons : Json → Items → Items

  pub data Fields : Type 0 where
    end : Fields
    field : String → Json → Fields → Fields

-- d.get(k): a missing key gives None, which is JSON's null.
abbrev pub get_field : String → Fields → Json
get_field k end = null
get_field k (field j v fs) = if j == k then v else get_field k fs

-- k in d
abbrev pub has_field : String → Fields → Bool
has_field k end = false
has_field k (field j v fs) = if j == k then true else has_field k fs

unfoldable pub append_fields : Fields → Fields → Fields
append_fields end gs = gs
append_fields (field k v fs) gs = field k v (append_fields fs gs)

-- d.setdefault(k, v)
abbrev pub set_default : String → Json → Fields → Fields
set_default k v fs = if has_field k fs then fs else append_fields fs (field k v end)

-- bool(v)
abbrev pub truthy : Json → Bool
truthy null = false
truthy (bool b) = b
truthy (int n) = to_ℤ_truthy n
truthy (str s) = not (s == "")
truthy (arr nil) = false
truthy (arr (cons x xs)) = true
truthy (obj end) = false
truthy (obj (field k v fs)) = true
