-- ===== src/Correlate/Rule.antt =====
-- A rule for `Correlator.apply` (src/costanza/correlate/engine.py): what its parts keep, it keeps.
use costanza.Prelude.{ℕ, String, ◌≡◌, refl, ◌∙◌, Bool, Option, none, some, Bool-cases, inl, inr}
use costanza.Result.{Result, ok, raised, continue, continue-state, ◌>>=◌, pure}
use costanza.Stdlib.{Stdlib}
use costanza.Schemas.{Time, CanonicalEvent, MediaRef, UserRef, IdentityProvider}
use costanza.Store.{Db, ChainState, SourceRow, UserRow}
use costanza.Store.Events.{insert_event, source_by_name}
use costanza.Store.Media.{find_or_create_media}
use costanza.Store.Users.{observe_identity, resolve_identity}
use costanza.Correlate.{
  needs_media, with_media_id, resolve_media_ref, resolve_user, resolve_user_ref, settle_user,
  resolve_hint, received, advance_chain, chain_state, finish, store_event, correlate_user, apply_at,
  apply,
}

-- The event under way keeps its key and its type.
pub record SameEvent (event : CanonicalEvent) (event' : CanonicalEvent) : Type 0 where
  pub key : event'.source_event_key ≡ event.source_event_key
  pub id : event'.id ≡ event.id
  pub type : event'.type ≡ event.type

module _ (event : CanonicalEvent) where
  SameEvent-refl : SameEvent event event
  SameEvent-refl = record { key = refl; id = refl; type = refl }

  pub SameEvent-user :
      (ref : Option UserRef) (db : Db) → SameEvent event (resolve_user_ref event ref db).0
  unfolding resolve_user_ref
  SameEvent-user none db = SameEvent-refl
  SameEvent-user (some user) db = hint user.provider user.external_id
    where
      settled :
          (p : IdentityProvider) (x : String) (hit : Option UserRow)
          → SameEvent event (settle_user event user p x hit db).0
      settled p x none = record { key = refl; id = refl; type = refl }
      settled p x (some u) = record { key = refl; id = refl; type = refl }

      hint :
          (p : Option IdentityProvider) (x : Option String)
          → SameEvent event (resolve_hint event user p x db).0
      hint none x = SameEvent-refl
      hint (some p) none = SameEvent-refl
      hint (some p) (some x) = settled p x (resolve_identity db p x)

  module _ {κ} (P : Db → Type κ) where
    resolve_user-keeps :
        (keep : (p : IdentityProvider) (x : String) (s : Db) → P s → P (observe_identity p x s).1)
        (ref : Option UserRef) (db : Db)
        → P db
        → P (resolve_user_ref event ref db).1
    unfolding resolve_user_ref
    resolve_user-keeps keep none db h = h
    resolve_user-keeps keep (some ref) db h = hint ref.provider ref.external_id
      where
        settled :
            (p : IdentityProvider) (x : String) (hit : Option UserRow)
            → P (settle_user event ref p x hit db).1
        settled p x none = keep p x db h
        settled p x (some u) = h

        hint :
            (p : Option IdentityProvider) (x : Option String) → P (resolve_hint event ref p x db).1
        hint none x = h
        hint (some p) none = h
        hint (some p) (some x) = settled p x (resolve_identity db p x)

-- `P` holds until the event is inserted, `E` from then on, and `Q` at the end.
pub record Rule {κ} (lib : Stdlib) (event : CanonicalEvent) (now : Time) (P E Q : Db → Type κ)
    : Type κ where
  pub media : (ref : MediaRef) (s : Db) → P s → P (find_or_create_media ref now s).1
  pub user : (p : IdentityProvider) (x : String) (s : Db) → P s → P (observe_identity p x s).1
  pub insert :
      (e : CanonicalEvent) (source_id : ℕ) (s : Db)
      → SameEvent event e
      → P s
      → E (insert_event e source_id now s).1
  pub advance :
      (e : CanonicalEvent) (state : ChainState) (s : Db)
      → E s
      → Q (advance_chain lib e state now s).1
  pub refused : (s : Db) → P s → Q s
  pub stored : (s : Db) → E s → Q s

module _ {κ} (lib : Stdlib) (event : CanonicalEvent) (now : Time) (P E Q : Db → Type κ)
    (rule : Rule lib event now P E Q) where
  finish-rule :
      (e : CanonicalEvent) (state : Option ChainState) (inserted : Bool) (s : Db)
      → E s
      → Q (finish lib e state now inserted s).1
  unfolding finish
  finish-rule e none inserted s h = rule.stored s h
  finish-rule e (some state) inserted s h =
      continue-state Q Q _ (advance_chain lib e state now s) (rule.advance e state s h) (λ v k. k)
        (λ a v k. k)

  store_event-rule :
      (e : CanonicalEvent) (source_id : ℕ) (s : Db)
      → SameEvent event e
      → P s
      → Q (store_event lib source_id e now s).1
  unfolding store_event
  store_event-rule e source_id s same h =
      continue-state E Q _ (insert_event e source_id now s) (rule.insert e source_id s same h)
        rule.stored (λ inserted v k. finish-rule e (chain_state e.type) inserted v k)

  correlate_user-rule :
      (e : CanonicalEvent) (source_id : ℕ) (s : Db)
      → SameEvent event e
      → P s
      → Q (correlate_user lib source_id e now s).1
  unfolding correlate_user resolve_user
  correlate_user-rule e source_id s same h =
      let user = SameEvent-user e e.user s in
      store_event-rule (received now (resolve_user_ref e e.user s).0) source_id
        (resolve_user_ref e e.user s).1
        (record { key = user.key ∙ same.key; id = user.id ∙ same.id; type = user.type ∙ same.type })
        (resolve_user-keeps e P rule.user e.user s h)

  media_found :
      (ref : MediaRef) (source_id : ℕ) (p : Result String × Db)
      → P p.1
      → Q
          (continue
            (λ e. correlate_user lib source_id e now)
            (continue (λ id. pure (with_media_id event ref id)) p)).1
  media_found ref source_id (ok id, s) h =
      correlate_user-rule (with_media_id event ref id) source_id s
        (record { key = refl; id = refl; type = refl }) h
  media_found ref source_id (raised exc, s) h = rule.refused s h

  resolve_media_ref-rule :
      (ref : Option MediaRef) (source_id : ℕ) (s : Db)
      → P s
      → Q ((resolve_media_ref event ref now >>= λ e. correlate_user lib source_id e now) s).1
  unfolding resolve_media_ref
  resolve_media_ref-rule none source_id s h =
      correlate_user-rule event source_id s (SameEvent-refl event) h
  resolve_media_ref-rule (some ref) source_id s h = elim (Bool-cases (needs_media ref)) [
    | inl e ↦ rw e (media_found ref source_id (find_or_create_media ref now s) (rule.media ref s h))
    | inr e ↦ rw e (correlate_user-rule event source_id s (SameEvent-refl event) h)
  ]

  apply_at-rule : (row : Option SourceRow) (s : Db) → P s → Q (apply_at lib event now row s).1
  unfolding apply_at
  apply_at-rule none s h = rule.refused s h
  apply_at-rule (some row) s h = resolve_media_ref-rule event.media row.id s h

  pub apply-rule : (s : Db) → P s → Q (apply lib event now s).1
  unfolding apply
  apply-rule s h = apply_at-rule (source_by_name s event.source) s h
