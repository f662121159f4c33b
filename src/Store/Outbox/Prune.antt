-- ===== src/Store/Outbox/Prune.antt =====
-- The retention of raw payloads: `prune` of src/costanza/store/db.py.
use costanza.Prelude.{
  String, ◌≡◌, refl, ◌∙◌, ap, true, false, not, some, List, [], ◌∷◌, find?-filter,
  find?-update_where, map_row, any-update_where, All-filter, All-zip, arith, any, find?, filter,
  update_where, eq_iff, ◌==◌, Bool-cases, inl, inr, All, All-weaken, str_eq_self,
}
use costanza.Schemas.{Time}
use costanza.Store.{Db, RawEvent, OutboxRow}
use costanza.Store.Outbox.{
  prune_at, is_expired, is_raw, is_done, is_outbox, prunable_outbox, prunable_raw, redactable,
  redact, redacted_body,
}

module _ (cutoff : Time) (db : Db) where
  abbrev pub pruned : Db
  pruned = (prune_at cutoff db).1

  -- No payload outlives the window: its body is the redaction notice.
  abbrev pub IsClean : RawEvent → Type 0
  IsClean raw = is_expired cutoff raw ≡ true → raw.body_json ≡ redacted_body

  update-IsClean :
      (raws : List RawEvent) → All IsClean (update_where (redactable cutoff) redact raws)
  unfolding update_where
  update-IsClean [] = tt
  update-IsClean (raw ∷ raws) =
      ((λ h. ground (arith, eq_iff raw.body_json redacted_body)), update-IsClean raws)

  -- Every row of a list refers to a raw event that some row of the list refers to.
  refers_self :
      (rows : List OutboxRow)
      → All (λ row. any (λ r. r.raw_event_id == row.raw_event_id) rows ≡ true) rows
  unfolding any
  refers_self [] = tt
  refers_self (row ∷ rows) = (
    rw (str_eq_self row.raw_event_id),
    All-weaken _ _ rows (λ r h. ground arith) (refers_self rows),
  )

  any-unused :
      (id : String) (rows : List OutboxRow) (raws : List RawEvent)
      → any (is_raw id) raws ≡ true
      → any (λ r. r.raw_event_id == id) rows ≡ true
      → any (is_raw id) (filter (λ raw. not (prunable_raw cutoff rows raw)) raws) ≡ true
  unfolding any filter
  any-unused id rows [] h used = cc
  any-unused id rows (raw ∷ raws) h used = elim (Bool-cases (raw.id == id)) [
    | inl e ↦
        let same : raw.id ≡ id = (eq_iff raw.id id).0 e in
        let kept : any (λ (r : OutboxRow). r.raw_event_id == raw.id) rows ≡ true = rw same used in
        ground arith
    | inr e ↦ ground (arith, any-unused id rows raws)
  ]

  -- After a prune no payload that is older than the cutoff is left: its row is gone or its body is
  -- the redaction notice.
  pub prune_at-IsClean : All IsClean pruned.raw_events
  unfolding prune_at
  prune_at-IsClean = update-IsClean _

  -- A prune keeps every queue row that is not done, as it is.
  pub prune_at-undone :
      (id : String) (row : OutboxRow)
      → find? (is_outbox id) db.outbox ≡ some row
      → is_done row.state ≡ false
      → find? (is_outbox id) pruned.outbox ≡ some row
  unfolding prune_at
  prune_at-undone id row found undone =
      find?-filter (is_outbox id) _ db.outbox row found (rw undone)

  -- A raw event within the window is kept as it is.
  pub prune_at-fresh :
      (id : String) (raw : RawEvent)
      → find? (is_raw id) db.raw_events ≡ some raw
      → is_expired cutoff raw ≡ false
      → find? (is_raw id) pruned.raw_events ≡ some raw
  unfolding prune_at
  prune_at-fresh id raw found fresh =
      find?-update_where (is_raw id) (redactable cutoff) redact _ (λ x. refl)
      ∙ ap (map_row (redactable cutoff) redact)
          (find?-filter (is_raw id) _ db.raw_events raw found (rw fresh))
      ∙ rw fresh

  -- Every queue row that is left has its raw event, if every row had.
  pub prune_at-references :
      All (λ row. any (is_raw row.raw_event_id) db.raw_events ≡ true) db.outbox
      → All (λ row. any (is_raw row.raw_event_id) pruned.raw_events ≡ true) pruned.outbox
  unfolding prune_at
  prune_at-references h =
      let rows = filter (λ row. not (prunable_outbox cutoff db.raw_events row)) db.outbox in
      All-zip _ _ _ rows
        (λ row used old.
          any-update_where (is_raw row.raw_event_id) (redactable cutoff) redact _ (λ x. refl)
          ∙ any-unused row.raw_event_id rows db.raw_events old used)
        (refers_self rows) (All-filter _ _ db.outbox h)
