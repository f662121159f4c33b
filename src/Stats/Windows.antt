-- ===== src/Stats/Windows.antt =====
-- The counts of src/costanza/stats over windows that meet.
use costanza.Prelude.{
  ℕ, ◌+◌, ◌≤◌, String, ◌≡◌, refl, Bool, true, false, ◌&&◌, Option, none, some, List, [], ◌∷◌, count,
  arith,
}
use costanza.Schemas.{Time, EventType}
use costanza.Store.{Db, ChainRow}
use costanza.Stats.{
  in_window, is_type, is_available, is_declined, closes_in, opened_count, available_count,
  declined_count, requests_summary, ops_summary,
}

abbrev flag : Bool → ℕ
flag false = 0
flag true = 1

-- A test that is one of two tests, and never both.
count-split {ℓ} :
    {A : Type ℓ} (p q r : A → Bool) (xs : List A)
    → ((x : A) → flag (p x) ≡ flag (q x) + flag (r x))
    → count p xs ≡ count q xs + count r xs
unfolding count
count-split p q r [] h = omega arith
count-split p q r (x ∷ xs) h = ground (arith, h x, count-split p q r xs h)

module _ (since mid until : Time) (begins : since ≤ mid) (ends : mid ≤ until) where
  in_window-split :
      (t : Time)
      → flag (in_window since until t) ≡ flag (in_window since mid t) + flag (in_window mid until t)
  in_window-split t = ground arith

  guarded :
      (b : Bool) (t : Time)
      → flag (b && in_window since until t)
        ≡ flag (b && in_window since mid t) + flag (b && in_window mid until t)
  guarded true t = in_window-split t
  guarded false t = refl

  closed :
      (b : Bool) (c : ChainRow)
      → flag (b && closes_in since until c)
        ≡ flag (b && closes_in since mid c) + flag (b && closes_in mid until c)
  closed b c = at c.closed_at
    where
      at :
          (t : Option Time)
          → flag (b && elim t [ none ↦ false | some t ↦ in_window since until t ])
            ≡ flag (b && elim t [ none ↦ false | some t ↦ in_window since mid t ])
              + flag (b && elim t [ none ↦ false | some t ↦ in_window mid until t ])
      at none = ground arith
      at (some t) = guarded b t

  -- Over two windows that meet, each of the counts of requests and of gaps and unknown events is the
  -- sum of the counts over the two: no request and no event is counted twice or left out.
  pub summaries-split :
      (db : Db) (day : Time → String)
      → ((requests_summary db day since until).opened
          ≡ (requests_summary db day since mid).opened + (requests_summary db day mid until).opened)
        × ((requests_summary db day since until).available
            ≡ (requests_summary db day since mid).available
              + (requests_summary db day mid until).available)
        × ((requests_summary db day since until).declined
            ≡ (requests_summary db day since mid).declined
              + (requests_summary db day mid until).declined)
        × ((ops_summary db since until).gaps
            ≡ (ops_summary db since mid).gaps + (ops_summary db mid until).gaps)
        × ((ops_summary db since until).unknown_events
            ≡ (ops_summary db since mid).unknown_events + (ops_summary db mid until).unknown_events)
  unfolding requests_summary ops_summary opened_count available_count declined_count
  summaries-split db day = (
    count-split _ _ _ db.request_chains (λ c. in_window-split c.opened_at),
    count-split _ _ _ db.request_chains (λ c. closed (is_available c.state) c),
    count-split _ _ _ db.request_chains (λ c. closed (is_declined c.state) c),
    count-split _ _ _ db.events (λ e. guarded (is_type EventType.reconcile_gap e) e.occurred_at),
    count-split _ _ _ db.events (λ e. guarded (is_type EventType.source_unknown e) e.occurred_at),
  )
