-- ===== src/Correlate/Stored.antt =====
-- What `Correlator.apply` of src/costanza/correlate/engine.py leaves in the table of events where it
-- returns.
use costanza.Prelude.{
  ℕ, String, ◌≡◌, refl, sym, ◌∙◌, ap, Bool, true, ◌||◌, Option, none, some, arith, any,
  any-append_row, str_eq_self, Bool-cases, inl, inr, ◌==◌,
}
use costanza.Result.{Result, ok, raised, Exec, continue, continue-state, ◌>>=◌, pure}
use costanza.Stdlib.{Stdlib}
use costanza.Schemas.{Time, CanonicalEvent, MediaRef}
use costanza.Store.{Db, EventRow, ChainState, SourceRow}
use costanza.Store.Events.{is_event, event_row, insert_event, source_by_name}
use costanza.Store.Media.{find_or_create_media}
use costanza.Correlate.{
  needs_media, with_media_id, resolve_media_ref, resolve_user, resolve_user_ref, received,
  advance_chain, chain_state, finish, store_event, correlate_user, apply_at, apply,
}
use costanza.Correlate.Rule.{SameEvent, SameEvent-user, apply-rule}
use costanza.Correlate.Frames.{
  find_or_create_media-events, observe_identity-events, advance_chain-events,
}

-- The table of events has a row with the key, or one with the id, for which a new row is ignored.
abbrev pub IsStored : String → String → Db → Type 0
IsStored id key db =
    (any (λ (r : EventRow). r.id == id) db.events || any (is_event key) db.events) ≡ true

-- A step that returns: what holds after the rest holds after the whole.
pub continue-ok {ℓ κ} :
    {S A B : Type ℓ} (Q : S → Type κ) (f : A → Exec S B) (p : Result A × S) {b : B}
    → (continue f p).0 ≡ ok b
    → ((a : A) (s : S) → p ≡ (ok a, s) → (f a s).0 ≡ ok b → Q (f a s).1)
    → Q (continue f p).1
continue-ok Q f (ok a, s) h go = go a s refl h
continue-ok Q f (raised e, s) h go = absurd cc

insert_event-IsStored :
    (event : CanonicalEvent) (source_id : ℕ) (now : Time) (db : Db) (b : Bool)
    → (insert_event event source_id now db).0 ≡ ok b
    → IsStored event.id event.source_event_key (insert_event event source_id now db).1
unfolding insert_event event_row
insert_event-IsStored event source_id now db b h = ground (
  arith,
  str_eq_self event.source_event_key,
  any-append_row (is_event event.source_event_key) db.events (event_row event source_id now),
)

module _ (lib : Stdlib) (event : CanonicalEvent) (now : Time) where
  abbrev Q : Db → Type 0
  Q s = IsStored event.id event.source_event_key s

  finish-events :
      (e : CanonicalEvent) (state : Option ChainState) (inserted : Bool) (s : Db)
      → (finish lib e state now inserted s).1.events ≡ s.events
  unfolding finish
  finish-events e none inserted s = refl
  finish-events e (some state) inserted s =
      let P = λ (t : Db). t.events ≡ s.events in
      continue-state P P _ (advance_chain lib e state now s)
        (advance_chain-events lib e state now s) (λ v k. k) (λ a v k. k)

  store_event-IsStored :
      (e : CanonicalEvent) (source_id : ℕ) (s : Db) (r : Bool × CanonicalEvent)
      → SameEvent event e
      → (store_event lib source_id e now s).0 ≡ ok r
      → Q (store_event lib source_id e now s).1
  unfolding store_event
  store_event-IsStored e source_id s r same h =
      continue-ok Q _ (insert_event e source_id now s) h (λ b t step rest.
        let there : IsStored e.id e.source_event_key t =
          rw step at (insert_event-IsStored e source_id now s b (ap (λ p. p.0) step)) in
        rw (finish-events e (chain_state e.type) b t, sym same.id, sym same.key) there)

  correlate_user-IsStored :
      (e : CanonicalEvent) (source_id : ℕ) (s : Db) (r : Bool × CanonicalEvent)
      → SameEvent event e
      → (correlate_user lib source_id e now s).0 ≡ ok r
      → Q (correlate_user lib source_id e now s).1
  unfolding correlate_user resolve_user
  correlate_user-IsStored e source_id s r same h =
      let user = SameEvent-user e e.user s in
      store_event-IsStored (received now (resolve_user_ref e e.user s).0) source_id
        (resolve_user_ref e e.user s).1 r
        (record { key = user.key ∙ same.key; id = user.id ∙ same.id; type = user.type ∙ same.type })
        h

  -- What follows the media's id.
  abbrev with_media : MediaRef → ℕ → Result String × Db → Result (Bool × CanonicalEvent) × Db
  with_media ref source_id p =
      continue (λ e. correlate_user lib source_id e now)
        (continue (λ id. pure (with_media_id event ref id)) p)

  with_media-IsStored :
      (ref : MediaRef) (source_id : ℕ) (r : Bool × CanonicalEvent) (p : Result String × Db)
      → (with_media ref source_id p).0 ≡ ok r
      → Q (with_media ref source_id p).1
  with_media-IsStored ref source_id r (ok id, t) h =
      correlate_user-IsStored (with_media_id event ref id) source_id t r
        (record { key = refl; id = refl; type = refl }) h
  with_media-IsStored ref source_id r (raised exc, t) h = absurd cc

  resolve_media_ref-IsStored :
      (ref : Option MediaRef) (source_id : ℕ) (s : Db) (r : Bool × CanonicalEvent)
      → ((resolve_media_ref event ref now >>= λ e. correlate_user lib source_id e now) s).0 ≡ ok r
      → Q ((resolve_media_ref event ref now >>= λ e. correlate_user lib source_id e now) s).1
  unfolding resolve_media_ref
  resolve_media_ref-IsStored none source_id s r h =
      correlate_user-IsStored event source_id s r (record { key = refl; id = refl; type = refl }) h
  resolve_media_ref-IsStored (some ref) source_id s r h = elim (Bool-cases (needs_media ref)) [
    | inl e ↦
        rw e (with_media-IsStored ref source_id r (find_or_create_media ref now s) (rw e at h))
    | inr e ↦ rw e (
        correlate_user-IsStored event source_id s r (record { key = refl; id = refl; type = refl })
          (rw e at h))
  ]

  apply_at-IsStored :
      (row : Option SourceRow) (s : Db) (r : Bool × CanonicalEvent)
      → (apply_at lib event now row s).0 ≡ ok r
      → Q (apply_at lib event now row s).1
  unfolding apply_at
  apply_at-IsStored none s r h = absurd cc
  apply_at-IsStored (some row) s r h = resolve_media_ref-IsStored event.media row.id s r h

  -- Where `apply` returns, the event is stored.
  pub apply-IsStored :
      (s : Db) (r : Bool × CanonicalEvent)
      → (apply lib event now s).0 ≡ ok r
      → Q (apply lib event now s).1
  unfolding apply
  apply-IsStored s r h = apply_at-IsStored (source_by_name s event.source) s r h

insert_event-keeps :
    (event : CanonicalEvent) (source_id : ℕ) (now : Time) (db : Db) (id key : String)
    → IsStored id key db
    → IsStored id key (insert_event event source_id now db).1
unfolding insert_event event_row
insert_event-keeps event source_id now db id key h = ground (
  arith,
  any-append_row (is_event key) db.events (event_row event source_id now),
  any-append_row (λ (r : EventRow). r.id == id) db.events (event_row event source_id now),
)

-- What is stored stays so.
pub apply-keeps :
    (lib : Stdlib) (event : CanonicalEvent) (now : Time) (id key : String) (db : Db)
    → IsStored id key db
    → IsStored id key (apply lib event now db).1
apply-keeps lib event now id key db h =
    let P = λ (s : Db). IsStored id key s in
    apply-rule lib event now P P P
      (record {
        media = λ ref s h. rw (find_or_create_media-events ref now s) h;
        user = λ p x s h. rw (observe_identity-events p x s) h;
        insert = λ e source_id s same h. insert_event-keeps e source_id now s id key h;
        advance = λ e state s h. rw (advance_chain-events lib e state now s) h;
        refused = λ s h. h;
        stored = λ s h. h;
      })
      db h
