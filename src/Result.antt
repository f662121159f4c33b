-- ===== src/Result.antt =====
-- Python exceptions as values. What was committed before a raise stays committed, so an action
-- gives the state back beside the exception too.
use costanza.Prelude.{String, [], ◌∷◌, format, ◌≡◌, refl}

pub record Exception : Type 0 where
  pub name : String
  pub message : String

-- f"{type(exc).__name__}: {exc}"
unfoldable pub describe : Exception → String
unfolding format
describe e = format (e.name ∷ ": " ∷ e.message ∷ [])

pub data Result {ℓ} (A : Type ℓ) : Type ℓ where
  ok : A → Result A
  raised : Exception → Result A

abbrev pub bind {ℓ κ} : {A : Type ℓ} {B : Type κ} → Result A → (A → Result B) → Result B
bind (ok a) f = f a
bind (raised e) f = raised e

abbrev pub integrity_error : Exception
integrity_error = record { name = "IntegrityError"; message = "constraint failed" }

abbrev pub Exec {ℓ} : Type ℓ → Type ℓ → Type ℓ
Exec S A = S → Result A × S

module _ {ℓ} {S A : Type ℓ} where
  abbrev pub pure : A → Exec S A
  pure a s = (ok a, s)

  abbrev pub raise : Exception → Exec S A
  raise e s = (raised e, s)

  -- A read.
  abbrev pub gets : (S → A) → Exec S A
  gets f s = (ok (f s), s)

module _ {ℓ} {S A B : Type ℓ} where
  abbrev pub continue : (A → Exec S B) → Result A × S → Result B × S
  continue f (ok a, s) = f a s
  continue f (raised e, s) = (raised e, s)

  infixl 10 ◌>>=◌ ◌>>◌
  abbrev pub ◌>>=◌ : Exec S A → (A → Exec S B) → Exec S B
  ◌>>=◌ m f s = continue f (m s)

  abbrev pub ◌>>◌ : Exec S A → Exec S B → Exec S B
  m >> n = m >>= λ _. n

-- A statement that cannot raise.
abbrev pub modify {ℓ} : {S : Type ℓ} → (S → S) → Exec S (Unit {ℓ})
modify f s = (ok tt, f s)

-- What holds of the state after a step holds at the end, in the form in which the rest gives it,
-- whether the step raised or not.
pub continue-state {ℓ κ μ} :
    {S A B : Type ℓ} (P : S → Type κ) (Q : S → Type μ) (f : A → Exec S B) (p : Result A × S)
    → P p.1
    → ((s : S) → P s → Q s)
    → ((a : A) (s : S) → P s → Q (f a s).1)
    → Q (continue f p).1
continue-state P Q f (ok a, s) h stop go = go a s h
continue-state P Q f (raised e, s) h stop go = stop s h

-- Inversion of a step that did not raise.
pub continue-eq-ok {ℓ} :
    {S A B : Type ℓ} (f : A → Exec S B) (p : Result A × S) {b : B}
    → (continue f p).0 ≡ ok b
    → (a : A) × (s : S) × (p ≡ (ok a, s)) × ((f a s).0 ≡ ok b)
continue-eq-ok f (ok a, s) h = (a, s, refl, h)
continue-eq-ok f (raised e, s) h = cc
