-- ===== src/Prelude/Snapshots.antt =====
-- Rows read from a table by a filtered, sorted and cut-off query, against the table.
use mathlib.Core.List.{List, [], ◌∷◌}
use mathlib.Core.Bool.{Bool, true, false}
use mathlib.Core.Option.{some}
use mathlib.Core.Path.{◌≡◌, refl, ap, ◌∙◌}
use Prim.Native.Nat.{ℕ, zero, suc, ◌≤◌}
use native.Mathlib.Omega.{arith}
use costanza.Prelude.Tests.{Bool-cases, leb}
use costanza.Prelude.Lists.{find?, filter, count, insert_by, sort_by, take, All}
use costanza.Prelude.Tables.{count-filter-le, count-sort_by, count-take-le}
use mathlib.Core.Logic.{inl, inr}

module _ {ℓ κ} {A : Type ℓ} (P : A → Type κ) where
  pub All-filter : (q : A → Bool) (xs : List A) → All P xs → All P (filter q xs)
  unfolding filter
  All-filter q [] h = h
  All-filter q (x ∷ xs) h = elim (Bool-cases (q x)) [
    | inl e ↦ rw e (h.0, All-filter q xs h.1)
    | inr e ↦ rw e (All-filter q xs h.1)
  ]

  All-insert_by : (key : A → ℕ) (x : A) (xs : List A) → P x → All P xs → All P (insert_by key x xs)
  unfolding insert_by
  All-insert_by key x [] p h = (p, h)
  All-insert_by key x (y ∷ ys) p h = elim (Bool-cases (leb (key x) (key y))) [
    | inl e ↦ rw e (p, (h.0, h.1))
    | inr e ↦ rw e (h.0, All-insert_by key x ys p h.1)
  ]

  pub All-sort_by : (key : A → ℕ) (xs : List A) → All P xs → All P (sort_by key xs)
  unfolding sort_by
  All-sort_by key [] h = h
  All-sort_by key (x ∷ xs) h = All-insert_by key x (sort_by key xs) h.0 (All-sort_by key xs h.1)

  pub All-take : (n : ℕ) (xs : List A) → All P xs → All P (take n xs)
  All-take zero xs h = tt
  All-take (suc n) [] h = tt
  All-take (suc n) (x ∷ xs) h = (h.0, All-take n xs h.1)

module _ {ℓ} {A : Type ℓ} (p : A → Bool) where
  -- Every row that passes the test is `r`.
  abbrev pub Only : A → List A → Type ℓ
  Only r xs = All (λ x. p x ≡ true → x ≡ r) xs

  Only-none : (r : A) (xs : List A) → count p xs ≡ 0 → Only r xs
  unfolding count
  Only-none r [] h = tt
  Only-none r (x ∷ xs) h = elim (Bool-cases (p x)) [
    | inl e ↦ absurd (ground arith)
    | inr e ↦ ((λ t. cc), Only-none r xs (ground arith))
  ]

  Only-found : (r : A) (xs : List A) → find? p xs ≡ some r → count p xs ≤ 1 → Only r xs
  unfolding find? count
  Only-found r [] h c = tt
  Only-found r (x ∷ xs) h c = elim (Bool-cases (p x)) [
    | inl e ↦ ((λ t. ground arith), Only-none r xs (ground arith))
    | inr e ↦ ((λ t. cc), Only-found r xs (ground arith) (ground arith))
  ]

  -- A query over a table where at most one row passes the test has only that row, once at most.
  pub query-Only :
      (r : A) (n : ℕ) (key : A → ℕ) (q : A → Bool) (xs : List A)
      → find? p xs ≡ some r
      → count p xs ≤ 1
      → Only r (take n (sort_by key (filter q xs)))
  query-Only r n key q xs h c =
      All-take _ n _ (All-sort_by _ key _ (All-filter _ q xs (Only-found r xs h c)))

  pub count-query-le :
      (n : ℕ) (key : A → ℕ) (q : A → Bool) (xs : List A)
      → count p (take n (sort_by key (filter q xs))) ≤ count p xs
  count-query-le n key q xs = omega (
    arith,
    count-take-le p n (sort_by key (filter q xs)),
    count-sort_by p key (filter q xs),
    count-filter-le p q xs,
  )

  count-filter_rejected :
      (r : A) (q : A → Bool) (xs : List A) → Only r xs → q r ≡ false → count p (filter q xs) ≡ 0
  unfolding count filter
  count-filter_rejected r q [] only h = refl
  count-filter_rejected r q (x ∷ xs) only h = elim (Bool-cases (p x)) [
    | inl e ↦ rw (ap q (only.0 e) ∙ h) (count-filter_rejected r q xs only.1 h)
    | inr e ↦ ground (arith, count-filter_rejected r q xs only.1 h)
  ]

  -- A query that rejects the only row that passes the test does not find it.
  pub count-query_rejected :
      (r : A) (n : ℕ) (key : A → ℕ) (q : A → Bool) (xs : List A)
      → find? p xs ≡ some r
      → count p xs ≤ 1
      → q r ≡ false
      → count p (take n (sort_by key (filter q xs))) ≡ 0
  count-query_rejected r n key q xs h c rejected = omega (
    arith,
    count-take-le p n (sort_by key (filter q xs)),
    count-sort_by p key (filter q xs),
    count-filter_rejected r q xs (Only-found r xs h c) rejected,
  )
