-- ===== src/Prelude/Keys.antt =====
-- Tables with a text as primary key: a row that a query returns is the row that its key finds.
use mathlib.Core.List.{List, [], ◌∷◌}
use mathlib.Core.Bool.{Bool}
use mathlib.Core.Option.{some}
use mathlib.Core.Path.{◌≡◌}
use mathlib.Core.Logic.{inl, inr}
use Prim.Native.Nat.{ℕ, ◌≤◌}
use Prim.Native.String.{String}
use native.Mathlib.Omega.{arith}
use costanza.Prelude.Tests.{Bool-cases, leb}
use costanza.Prelude.Texts.{◌==◌, str_eq_self}
use costanza.Prelude.Lists.{find?, count, insert_desc, sort_by_desc, All}
use costanza.Prelude.Tables.{any_of_find?, count-pos_of_any}

-- What holds of every row holds of the row found.
pub All-find? {ℓ κ} :
    {A : Type ℓ} (P : A → Type κ) (p : A → Bool) (xs : List A) (a : A)
    → All P xs
    → find? p xs ≡ some a
    → P a
unfolding find?
All-find? P p [] a all h = cc
All-find? P p (x ∷ xs) a all h = elim (Bool-cases (p x)) [
  | inl e ↦ let same : x ≡ a = ground arith in rw (← same) all.0
  | inr e ↦ All-find? P p xs a all.1 (ground arith)
]

All-insert_desc {ℓ κ} :
    {A : Type ℓ} (P : A → Type κ) (key : A → ℕ) (x : A) (xs : List A)
    → P x
    → All P xs
    → All P (insert_desc key x xs)
unfolding insert_desc
All-insert_desc P key x [] p h = (p, h)
All-insert_desc P key x (y ∷ ys) p h = elim (Bool-cases (leb (key y) (key x))) [
  | inl e ↦ rw e (p, (h.0, h.1))
  | inr e ↦ rw e (h.0, All-insert_desc P key x ys p h.1)
]

pub All-sort_by_desc {ℓ κ} :
    {A : Type ℓ} (P : A → Type κ) (key : A → ℕ) (xs : List A)
    → All P xs
    → All P (sort_by_desc key xs)
unfolding sort_by_desc
All-sort_by_desc P key [] h = h
All-sort_by_desc P key (x ∷ xs) h =
    All-insert_desc P key x (sort_by_desc key xs) h.0 (All-sort_by_desc P key xs h.1)

pub All-weaken {ℓ κ μ} :
    {A : Type ℓ} (P : A → Type κ) (Q : A → Type μ) (xs : List A)
    → ((a : A) → P a → Q a)
    → All P xs
    → All Q xs
All-weaken P Q [] f h = tt
All-weaken P Q (x ∷ xs) f h = (f x h.0, All-weaken P Q xs f h.1)

module _ {ℓ} {A : Type ℓ} (id : A → String) where
  abbrev pub has_id : String → A → Bool
  has_id i x = id x == i

  -- PRIMARY KEY
  abbrev pub UniqueIds : List A → Type 0
  UniqueIds xs = (i : String) → count (has_id i) xs ≤ 1

  unique_tail : (x : A) (xs : List A) → UniqueIds (x ∷ xs) → UniqueIds xs
  unfolding count
  unique_tail x xs u i = ground (arith, u i)

  found_later :
      (x y : A) (xs : List A)
      → UniqueIds (x ∷ xs)
      → find? (has_id (id y)) xs ≡ some y
      → find? (has_id (id y)) (x ∷ xs) ≡ some y
  unfolding count find?
  found_later x y xs u h =
      ground
        (arith, u (id y), count-pos_of_any (has_id (id y)) xs, any_of_find? (has_id (id y)) xs y)

  -- Each row is found by its id.
  pub UniqueIds-found :
      (xs : List A) → UniqueIds xs → All (λ y. find? (has_id (id y)) xs ≡ some y) xs
  UniqueIds-found [] u = tt
  UniqueIds-found (x ∷ xs) u = (
    unfold find? in (rw (str_eq_self (id x))),
    All-weaken _ _ xs (λ y h. found_later x y xs u h) (UniqueIds-found xs (unique_tail x xs u)),
  )

pub All-zip {ℓ κ μ ν} :
    {A : Type ℓ} (P : A → Type κ) (Q : A → Type μ) (R : A → Type ν) (xs : List A)
    → ((a : A) → P a → Q a → R a)
    → All P xs
    → All Q xs
    → All R xs
All-zip P Q R [] f h k = tt
All-zip P Q R (x ∷ xs) f h k = (f x h.0 k.0, All-zip P Q R xs f h.1 k.1)
