-- ===== src/Program/Schema/Kept.antt =====
-- Every write keeps the constraints of the database.
use costanza.Prelude.{ℕ, ap, List, [], ◌∷◌, ◌++◌, ◌==◌, All-weaken}
use costanza.Store.{
  Db, SourceRow, RawEvent, OutboxRow, MediaRow, IdentityRow, EventRow, ChainRow, NotificationRow,
  KillSwitchRow, CursorRow, UserRow,
}
use costanza.Store.Outbox.{prune_at}
use costanza.Store.Media.{is_media}
use costanza.Store.Users.{is_identity}
use costanza.Store.Events.{is_event}
use costanza.Program.Writes.{
  Write, Writes, draw, add_raw, add_outbox, change_outbox, prune_raws, add_media, change_media,
  add_identity, change_identity, put_users, put_sources, add_event, add_chain, change_chain,
  add_notification, change_notification, move_cursors, add_switch, none_yet, then_one,
}
use costanza.Program.Schema.{
  HasSource, IsQueue, IsEvents, IsChains, IsLedger, IsMedia, IsIdentities, IsWellFormed,
}
use costanza.Program.Schema.Tables.{
  count-add, count-change, All-add, text_key, identity_free, add_raw-IsQueue, add_outbox-IsQueue,
  change_outbox-IsQueue, prune_at-IsQueue, add_chain-IsChains, change_chain-IsChains,
  add_notification-IsLedger, change_notification-IsLedger,
}

module _ (db : Db) (w : IsWellFormed db) where
  with_queue :
      (raws : List RawEvent) (rows : List OutboxRow)
      → IsQueue raws rows
      → IsWellFormed (record db { raw_events = raws; outbox = rows })
  with_queue raws rows queue = record {
    queue = queue;
    media = w.media;
    identities = w.identities;
    events = w.events;
    chains = w.chains;
    ledger = w.ledger;
  }

  with_identities :
      (media : List MediaRow) (rows : List IdentityRow)
      → IsMedia media
      → IsIdentities rows
      → IsWellFormed (record db { media = media; identities = rows })
  with_identities media rows m i = record {
    queue = w.queue;
    media = m;
    identities = i;
    events = w.events;
    chains = w.chains;
    ledger = w.ledger;
  }

  with_events :
      (sources : List SourceRow) (rows : List EventRow)
      → IsEvents sources rows
      → IsWellFormed (record db { sources = sources; events = rows })
  with_events sources rows events = record {
    queue = w.queue;
    media = w.media;
    identities = w.identities;
    events = events;
    chains = w.chains;
    ledger = w.ledger;
  }

  with_ledger :
      (chains : List ChainRow) (rows : List NotificationRow)
      → IsChains chains
      → IsLedger rows
      → IsWellFormed (record db { request_chains = chains; notifications = rows })
  with_ledger chains rows c l = record {
    queue = w.queue;
    media = w.media;
    identities = w.identities;
    events = w.events;
    chains = c;
    ledger = l;
  }

  -- What the constraints do not speak of.
  with_rest :
      (n : ℕ) (users : List UserRow) (cursors : List CursorRow) (audit : List KillSwitchRow)
      → IsWellFormed
          (record db { drawn = n; users = users; job_cursors = cursors; kill_switch_audit = audit })
  with_rest n users cursors audit = record {
    queue = w.queue;
    media = w.media;
    identities = w.identities;
    events = w.events;
    chains = w.chains;
    ledger = w.ledger;
  }

pub Write-IsWellFormed : {db s : Db} → Write db s → IsWellFormed db → IsWellFormed s
unfolding prune_at
Write-IsWellFormed {db} (draw n) w = with_rest db w n db.users db.job_cursors db.kill_switch_audit
Write-IsWellFormed {db} (move_cursors rows) w =
    with_rest db w db.drawn db.users rows db.kill_switch_audit
Write-IsWellFormed {db} (add_switch row) w =
    with_rest db w db.drawn db.users db.job_cursors (db.kill_switch_audit ++ row ∷ [])
Write-IsWellFormed {db} (add_raw row fresh) w =
    with_queue db w _ _ (add_raw-IsQueue db.raw_events db.outbox row fresh w.queue)
Write-IsWellFormed {db} (add_outbox row fresh known) w =
    with_queue db w _ _ (add_outbox-IsQueue db.raw_events db.outbox row fresh known w.queue)
Write-IsWellFormed {db} (change_outbox id f same_id same_raw) w =
    with_queue db w _ _
      (change_outbox-IsQueue db.raw_events db.outbox id f same_id same_raw w.queue)
Write-IsWellFormed {db} (prune_raws cutoff) w =
    with_queue db w _ _ (prune_at-IsQueue cutoff db w.queue)
Write-IsWellFormed {db} (add_media row fresh) w =
    with_identities db w _ _
      (λ id.
        count-add (is_media id) db.media row
          (λ same. text_key (λ (r : MediaRow). r.id) id db.media row fresh same) (w.media id))
      w.identities
Write-IsWellFormed {db} (change_media id f same_id) w =
    with_identities db w _ _
      (λ i.
        count-change (is_media i) (is_media id) f db.media (λ x. ap (λ j. j == i) (same_id x))
          (w.media i))
      w.identities
Write-IsWellFormed {db} (add_identity row fresh) w = with_identities db w _ _ w.media (λ p x.
    count-add (is_identity p x) db.identities row
      (λ same. identity_free p x row db.identities same fresh) (w.identities p x))
Write-IsWellFormed {db} (change_identity p x f same_provider same_id) w =
    with_identities db w _ _ w.media (λ q y.
      count-change (is_identity q y) (is_identity p x) f db.identities
        (λ z. rw (same_provider z, same_id z)) (w.identities q y))
Write-IsWellFormed {db} (put_users rows) w =
    with_rest db w db.drawn rows db.job_cursors db.kill_switch_audit
Write-IsWellFormed {db} (put_sources rows known) w = with_events db w rows db.events (record {
  keys = w.events.keys;
  references =
      All-weaken (HasSource db.sources) (HasSource rows) db.events (λ row h. known row.source_id h)
        w.events.references;
})
Write-IsWellFormed {db} (add_event row fresh known) w = with_events db w db.sources _ (record {
  keys = λ key.
      count-add (is_event key) db.events row
        (λ same. text_key (λ (r : EventRow). r.source_event_key) key db.events row fresh same)
        (w.events.keys key);
  references = All-add (HasSource db.sources) db.events row w.events.references known;
})
Write-IsWellFormed {db} (add_chain row fresh free) w =
    with_ledger db w _ _ (add_chain-IsChains db.request_chains row fresh free w.chains) w.ledger
Write-IsWellFormed {db} (change_chain id f same_id same_request) w =
    with_ledger db w _ _
      (change_chain-IsChains db.request_chains id f same_id same_request w.chains) w.ledger
Write-IsWellFormed {db} (add_notification row fresh free) w =
    with_ledger db w _ _ w.chains
      (add_notification-IsLedger db.notifications row fresh free w.ledger)
Write-IsWellFormed {db} (change_notification id f same_id same_key same_channel) w =
    with_ledger db w _ _ w.chains
      (change_notification-IsLedger db.notifications id f same_id same_key same_channel w.ledger)

-- Every sequence of writes keeps the constraints.
pub Writes-IsWellFormed : {db s : Db} → Writes db s → IsWellFormed db → IsWellFormed s
Writes-IsWellFormed none_yet w = w
Writes-IsWellFormed (then_one ws last) w = Write-IsWellFormed last (Writes-IsWellFormed ws w)
