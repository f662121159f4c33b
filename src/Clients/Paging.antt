-- ===== src/Clients/Paging.antt =====
-- The pages of src/costanza/clients against a service that cuts one list into pages.
use costanza.Prelude.{
  ℕ, zero, suc, ◌+◌, ◌*◌, ◌≤◌, ◌<◌, String, ◌≡◌, refl, sym, ap, ◌∙◌, List, [], ◌∷◌, ◌++◌, length,
  take, ltb, Bool-cases, inl, inr, arith, if◌then◌else◌,
}
use costanza.Json.{Json}
use costanza.Result.{Result, ok, raised, bind}
use costanza.Normalize.Common.{◌>>=◌}
use costanza.Clients.{page_of, results_from}

module _ {ℓ} {A : Type ℓ} where
  abbrev pub drop : ℕ → List A → List A
  drop zero xs = xs
  drop (suc n) [] = []
  drop (suc n) (x ∷ xs) = drop n xs

  drop_nil : (n : ℕ) → drop n [] ≡ []
  drop_nil zero = refl
  drop_nil (suc n) = refl

  take_nil : (n : ℕ) → take {A = A} n [] ≡ []
  take_nil zero = refl
  take_nil (suc n) = refl

  pub drop_add : (a b : ℕ) (xs : List A) → drop b (drop a xs) ≡ drop (a + b) xs
  drop_add zero b xs = let e : 0 + b ≡ b = omega arith in rw e refl
  drop_add (suc a) b [] = drop_nil b ∙ sym (drop_nil (suc a + b))
  drop_add (suc a) b (x ∷ xs) =
      let e : suc a + b ≡ suc (a + b) = omega arith in rw e (drop_add a b xs)

  pub take_add : (a b : ℕ) (xs : List A) → take (a + b) xs ≡ take a xs ++ take b (drop a xs)
  take_add zero b xs = let e : 0 + b ≡ b = omega arith in rw e refl
  take_add (suc a) b [] = take_nil (suc a + b) ∙ sym (take_nil b)
  take_add (suc a) b (x ∷ xs) =
      let e : suc a + b ≡ suc (a + b) = omega arith in rw e (ap (λ ys. x ∷ ys) (take_add a b xs))

  -- A page that is not full is the last.
  pub take_short : (a b : ℕ) (xs : List A) → length (take a xs) < a → take (a + b) xs ≡ take a xs
  take_short zero b xs h = absurd (omega arith)
  take_short (suc a) b [] h = take_nil (suc a + b)
  take_short (suc a) b (x ∷ xs) h =
      let e : suc a + b ≡ suc (a + b) = omega arith in
      rw e (ap (λ ys. x ∷ ys) (take_short a b xs (omega arith)))

  pub take_all : (n : ℕ) (xs : List A) → length xs ≤ n → take n xs ≡ xs
  take_all zero [] h = refl
  take_all zero (x ∷ xs) h = absurd (omega arith)
  take_all (suc n) [] h = refl
  take_all (suc n) (x ∷ xs) h = ap (λ ys. x ∷ ys) (take_all n xs (omega arith))

-- The service cuts `all` into pages of `page_size`.
abbrev pub IsPaged : (ℕ → Result Json) → String → ℕ → List Json → Type 0
IsPaged fetch k page_size all =
    (skip : ℕ) → bind (fetch skip) (page_of k) ≡ ok (take page_size (drop skip all))

module _ (fetch : ℕ → Result Json) (page_size : ℕ) (all : List Json)
    (paged : IsPaged fetch "results" page_size all) where
  results_from-page :
      (pages skip : ℕ) (response : Result Json) (page : List Json)
      → fetch skip ≡ response
      → bind response (page_of "results") ≡ ok page
      → results_from fetch page_size (suc pages) skip ≡ (
          if ltb (length page) page_size
          then ok page
          else (results_from fetch page_size pages (skip + page_size) >>= λ more.
              ok (page ++ more)))
  unfolding results_from
  results_from-page pages skip (raised exc) page e h = cc
  results_from-page pages skip (ok response) page e h = rw (e, h)

  -- The loop collects the first `pages * page_size` results.
  results_from-take :
      (pages skip : ℕ)
      → results_from fetch page_size pages skip ≡ ok (take (pages * page_size) (drop skip all))
  unfolding results_from
  results_from-take zero skip = let e : 0 * page_size ≡ 0 = omega arith in rw e refl
  results_from-take (suc pages) skip =
      let e : suc pages * page_size ≡ page_size + pages * page_size = omega arith in
      let rest = drop skip all in
      results_from-page pages skip (fetch skip) (take page_size rest) refl (paged skip)
      ∙ elim (Bool-cases (ltb (length (take page_size rest)) page_size)) [
        | inl short ↦
            rw (short, e, take_short page_size (pages * page_size) rest (ground arith)) refl
        | inr full ↦
            rw
              (
                full,
                e,
                results_from-take pages (skip + page_size),
                take_add page_size (pages * page_size) rest,
                drop_add skip page_size all,
              )
              refl
      ]

-- A service that cuts a list of at most `pages * page_size` results into pages of `page_size`: the
-- loop of the Seerr client, with that many pages allowed, ends and gives the whole list.
pub results_from-all :
    (fetch : ℕ → Result Json) (page_size pages : ℕ) (all : List Json)
    → IsPaged fetch "results" page_size all
    → length all ≤ pages * page_size
    → results_from fetch page_size pages 0 ≡ ok all
results_from-all fetch page_size pages all paged fits =
    results_from-take fetch page_size all paged pages 0
    ∙ ap ok (take_all (pages * page_size) all fits)
