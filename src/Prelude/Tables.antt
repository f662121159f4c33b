-- ===== src/Prelude/Tables.antt =====
-- Laws of the table operations: what a search, a count or a test sees after an update, an append
-- or a filter.
use mathlib.Core.List.{List, [], ◌∷◌, ◌++◌}
use mathlib.Core.Bool.{Bool, true, false, ◌||◌}
use mathlib.Core.Option.{Option, none, some}
use mathlib.Core.Path.{◌≡◌, refl, ap, sym, ◌∙◌}
use mathlib.Core.Logic.{inl, inr}
use Prim.Native.Nat.{ℕ, zero, suc, ◌+◌, ◌≤◌}
use native.Mathlib.Omega.{arith}
use costanza.Prelude.Tests.{if◌then◌else◌, Bool-cases}
use costanza.Prelude.Lists.{any, find?, filter, count, update_where, insert_by, sort_by, take}

module _ {ℓ} {A : Type ℓ} where
  abbrev pub map_row : (A → Bool) → (A → A) → Option A → Option A
  map_row q f none = none
  map_row q f (some x) = some (if q x then f x else x)

  pub find?-update_where :
      (p q : A → Bool) (f : A → A) (xs : List A)
      → ((x : A) → p (f x) ≡ p x)
      → find? p (update_where q f xs) ≡ map_row q f (find? p xs)
  unfolding find? update_where
  find?-update_where p q f [] keep = refl
  find?-update_where p q f (x ∷ xs) keep = ground (arith, keep x, find?-update_where p q f xs keep)

  pub count-update_where :
      (p q : A → Bool) (f : A → A) (xs : List A)
      → ((x : A) → p (f x) ≡ p x)
      → count p (update_where q f xs) ≡ count p xs
  unfolding count update_where
  count-update_where p q f [] keep = refl
  count-update_where p q f (x ∷ xs) keep = ground (arith, keep x, count-update_where p q f xs keep)

  pub any-update_where :
      (p q : A → Bool) (f : A → A) (xs : List A)
      → ((x : A) → p (f x) ≡ p x)
      → any p (update_where q f xs) ≡ any p xs
  unfolding any update_where
  any-update_where p q f [] keep = refl
  any-update_where p q f (x ∷ xs) keep = ground (arith, keep x, any-update_where p q f xs keep)

  pub count-append_row :
      (p : A → Bool) (xs : List A) (x : A)
      → count p (xs ++ x ∷ []) ≡ count p xs + (if p x then 1 else 0)
  unfolding count
  count-append_row p [] x = ground arith
  count-append_row p (y ∷ xs) x = ground (arith, count-append_row p xs x)

  pub any-append_row :
      (p : A → Bool) (xs : List A) (x : A) → any p (xs ++ x ∷ []) ≡ (any p xs || p x)
  unfolding any
  any-append_row p [] x = ground arith
  any-append_row p (y ∷ xs) x = ground (arith, any-append_row p xs x)

  pub find?-append_row :
      (p : A → Bool) (xs : List A) (x : A)
      → find? p (xs ++ x ∷ [])
        ≡ elim (find? p xs) [ none ↦ if p x then some x else none | some y ↦ some y ]
  unfolding find?
  find?-append_row p [] x = ground arith
  find?-append_row p (y ∷ xs) x = ground (arith, find?-append_row p xs x)

  pub count-eq-zero_of_not-any : (p : A → Bool) (xs : List A) → any p xs ≡ false → count p xs ≡ 0
  unfolding count any
  count-eq-zero_of_not-any p [] h = refl
  count-eq-zero_of_not-any p (x ∷ xs) h = ground (arith, count-eq-zero_of_not-any p xs)

  pub find?-eq-none_of_not-any : (p : A → Bool) (xs : List A) → any p xs ≡ false → find? p xs ≡ none
  unfolding find? any
  find?-eq-none_of_not-any p [] h = refl
  find?-eq-none_of_not-any p (x ∷ xs) h = ground (arith, find?-eq-none_of_not-any p xs)

  pub any_of_find? : (p : A → Bool) (xs : List A) (a : A) → find? p xs ≡ some a → any p xs ≡ true
  unfolding find? any
  any_of_find? p [] a h = cc
  any_of_find? p (x ∷ xs) a h = ground (arith, any_of_find? p xs a)

  pub find?_holds : (p : A → Bool) (xs : List A) (a : A) → find? p xs ≡ some a → p a ≡ true
  unfolding find?
  find?_holds p [] a h = cc
  find?_holds p (x ∷ xs) a h = ground (arith, find?_holds p xs a)

  pub count-filter-le : (p q : A → Bool) (xs : List A) → count p (filter q xs) ≤ count p xs
  unfolding count filter
  count-filter-le p q [] = omega arith
  count-filter-le p q (x ∷ xs) = ground (arith, count-filter-le p q xs)

  count-insert_by :
      (p : A → Bool) (key : A → ℕ) (x : A) (xs : List A)
      → count p (insert_by key x xs) ≡ count p (x ∷ xs)
  unfolding count insert_by
  count-insert_by p key x [] = refl
  count-insert_by p key x (y ∷ ys) = ground (arith, count-insert_by p key x ys)

  pub count-sort_by :
      (p : A → Bool) (key : A → ℕ) (xs : List A) → count p (sort_by key xs) ≡ count p xs
  unfolding sort_by count
  count-sort_by p key [] = refl
  count-sort_by p key (x ∷ xs) =
      ground (arith, count-insert_by p key x (sort_by key xs), count-sort_by p key xs)

  pub count-take-le : (p : A → Bool) (n : ℕ) (xs : List A) → count p (take n xs) ≤ count p xs
  unfolding count
  count-take-le p zero xs = omega arith
  count-take-le p (suc n) [] = omega arith
  count-take-le p (suc n) (x ∷ xs) = ground (arith, count-take-le p n xs)

  pub count-pos_of_any : (p : A → Bool) (xs : List A) → any p xs ≡ true → 1 ≤ count p xs
  unfolding count any
  count-pos_of_any p [] h = cc
  count-pos_of_any p (x ∷ xs) h = ground (arith, count-pos_of_any p xs)

  -- An update of other rows is not seen.
  pub find?-update_ne :
      (p q : A → Bool) (f : A → A) (xs : List A)
      → ((x : A) → p (f x) ≡ p x)
      → ((x : A) → p x ≡ true → q x ≡ false)
      → find? p (update_where q f xs) ≡ find? p xs
  unfolding find? update_where
  find?-update_ne p q f [] keep apart = refl
  find?-update_ne p q f (x ∷ xs) keep apart =
      ground (arith, keep x, apart x, find?-update_ne p q f xs keep apart)

  -- The row that is found is the one updated.
  pub find?-update_self :
      (p : A → Bool) (f : A → A) (xs : List A) (r : A)
      → ((x : A) → p (f x) ≡ p x)
      → find? p xs ≡ some r
      → find? p (update_where p f xs) ≡ some (f r)
  unfolding find? update_where
  find?-update_self p f [] r keep h = cc
  find?-update_self p f (x ∷ xs) r keep h = ground (arith, keep x, find?-update_self p f xs r keep)

  -- A row that is found first and passes the filter is found in what the filter leaves.
  pub find?-filter :
      (p q : A → Bool) (xs : List A) (r : A)
      → find? p xs ≡ some r
      → q r ≡ true
      → find? p (filter q xs) ≡ some r
  unfolding find? filter
  find?-filter p q [] r h k = cc
  find?-filter p q (x ∷ xs) r h k = elim (Bool-cases (p x)) [
    | inl e ↦ let same : x ≡ r = ground arith in rw (same, k) (rw (ap p (sym same) ∙ e))
    | inr e ↦ ground (arith, find?-filter p q xs r)
  ]

  -- Every element passes a test that some element equal to it in the test passes.
  pub any-weaken :
      (p q : A → Bool) (xs : List A)
      → ((x : A) → p x ≡ true → q x ≡ true)
      → any p xs ≡ true
      → any q xs ≡ true
  unfolding any
  any-weaken p q [] f h = cc
  any-weaken p q (x ∷ xs) f h = ground (arith, f x, any-weaken p q xs f)
