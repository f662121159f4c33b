-- ===== src/Jobs/Reconcile/Cursors.antt =====
-- The steps of src/costanza/jobs/reconcile.py against the cursors of the jobs.
use costanza.Prelude.{
  ℕ, String, ◌≡◌, refl, ◌∙◌, Bool, true, false, Option, none, some, List, [], ◌∷◌, arith,
}
use costanza.Result.{Result, ok, raised, continue-state}
use costanza.Stdlib.{Stdlib}
use costanza.Schemas.{Time, CanonicalEvent, MediaRef, IdentityProvider, RenderedMessage}
use costanza.Config.{RoutingConfig}
use costanza.Store.{Db, ChainRow, ChainState}
use costanza.Store.Chains.{create_chain, update_chain}
use costanza.Store.Events.{insert_event}
use costanza.Store.Media.{find_or_create_media}
use costanza.Store.Users.{observe_identity}
use costanza.Store.Notifications.{enqueue_notification}
use costanza.Correlate.Rule.{apply-rule}
use costanza.Correlate.{
  Move, closing_time, move_of, open_chain, advance_found, advance_or_open, advance_chain, apply,
}
use costanza.Notify.Render.{render_event}
use costanza.Notify.Limits.{engaged}
use costanza.Notify.Router.{channels_for}
use costanza.Notify.Pipeline.{enqueue_channels, fan_out, enqueue_for_event}
use costanza.Jobs.Reconcile.Keeps.{Keeps}
use costanza.Jobs.Reconcile.Run.{Clock}

-- The cursors are those of `db`.
abbrev pub SameCursors : Db → Db → Type 0
SameCursors db s = s.job_cursors ≡ db.job_cursors

find_or_create_media-SameCursors :
    (ref : MediaRef) (now : Time) (db : Db) → SameCursors db (find_or_create_media ref now db).1
unfolding find_or_create_media
find_or_create_media-SameCursors ref now db = ground arith

observe_identity-SameCursors :
    (p : IdentityProvider) (x : String) (db : Db) → SameCursors db (observe_identity p x db).1
unfolding observe_identity
observe_identity-SameCursors p x db = ground arith

insert_event-SameCursors :
    (event : CanonicalEvent) (source_id : ℕ) (now : Time) (db : Db)
    → SameCursors db (insert_event event source_id now db).1
unfolding insert_event
insert_event-SameCursors event source_id now db = ground arith

create_chain-SameCursors :
    (media_id request_id user_id : Option String) (state : ChainState) (opened : Time)
    (closed : Option Time) (db : Db)
    → SameCursors db (create_chain media_id request_id user_id state opened closed db).1
unfolding create_chain
create_chain-SameCursors media_id request_id user_id state opened closed db = ground arith

advance_or_open-SameCursors :
    (move : Move) (chain : Option ChainRow) (db : Db)
    → SameCursors db (advance_or_open move chain db).1
unfolding open_chain advance_found update_chain
advance_or_open-SameCursors move none db =
    continue-state (λ (s : Db). SameCursors db s) (λ (s : Db). SameCursors db s) _
      (create_chain move.media_id move.request_id move.user_id move.state move.occurred
        (closing_time move) db)
      (create_chain-SameCursors move.media_id move.request_id move.user_id move.state move.occurred
        (closing_time move) db)
      (λ s h. h) (λ a s h. h)
advance_or_open-SameCursors move (some chain) db = ground arith

apply-SameCursors :
    (lib : Stdlib) (event : CanonicalEvent) (now : Time) (db : Db)
    → SameCursors db (apply lib event now db).1
unfolding advance_chain
apply-SameCursors lib event now db =
    let P = λ (s : Db). SameCursors db s in
    apply-rule lib event now P P P
      (record {
        media = λ ref s h. find_or_create_media-SameCursors ref now s ∙ h;
        user = λ p x s h. observe_identity-SameCursors p x s ∙ h;
        insert = λ e source_id s same h. insert_event-SameCursors e source_id now s ∙ h;
        advance = λ e state s h. advance_or_open-SameCursors (move_of lib e state now) _ s ∙ h;
        refused = λ s h. h;
        stored = λ s h. h;
      })
      db refl

enqueue_channels-SameCursors :
    (k h : String) (now : Time) (channels : List String) (created : ℕ) (db : Db)
    → SameCursors db (enqueue_channels k h now channels created db).1
unfolding enqueue_channels enqueue_notification
enqueue_channels-SameCursors k h now [] created db = refl
enqueue_channels-SameCursors k h now (c ∷ channels) created db =
    enqueue_channels-SameCursors k h now channels _ (enqueue_notification k c h now db).1
    ∙ ground arith

fan_out-SameCursors :
    (k : String) (hash : RenderedMessage → String) (now : Time) (channels : List String)
    (muted : Bool) (message : Result RenderedMessage) (db : Db)
    → SameCursors db (fan_out k hash now channels muted message db).1
unfolding fan_out
fan_out-SameCursors k hash now [] muted message db = refl
fan_out-SameCursors k hash now (c ∷ cs) true message db = refl
fan_out-SameCursors k hash now (c ∷ cs) false (raised exc) db = refl
fan_out-SameCursors k hash now (c ∷ cs) false (ok m) db =
    enqueue_channels-SameCursors k (hash m) now (c ∷ cs) 0 db

module _ (lib : Stdlib) (hash : RenderedMessage → String) (clock : Clock) (routing : RoutingConfig)
    (kill : Option Bool) (now : Time) where
  -- No correlation and no fan-out writes a cursor.
  pub jobs_keep_cursors : (db : Db) → Keeps lib hash routing kill now (λ (s : Db). SameCursors db s)
  unfolding enqueue_for_event
  jobs_keep_cursors db = record {
    applied = λ event s h. apply-SameCursors lib event now s ∙ h;
    fanned = λ env_override event s h.
        fan_out-SameCursors event.source_event_key hash now (channels_for event routing)
          (engaged env_override s) (render_event lib event) s
        ∙ h;
    resolved = λ ref s h. find_or_create_media-SameCursors ref now s ∙ h;
    drew = λ n s h. h;
  }
