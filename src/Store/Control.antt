-- ===== src/Store/Control.antt =====
-- src/costanza/store/db.py, "job cursors" and "kill switch".
use costanza.Prelude.{
  String, Bool, true, Option, none, some, List, [], ◌∷◌, ◌++◌, any, find?, update_where, ◌==◌,
  if◌then◌else◌,
}
use costanza.Schemas.{Time}
use costanza.Store.{Db, CursorRow, KillSwitchRow}

abbrev pub is_job : String → CursorRow → Bool
is_job job row = row.job == job

abbrev pub cursor_of : Option CursorRow → Option (List (String × Time))
cursor_of none = none
cursor_of (some row) = some row.cursor

unfoldable pub get_cursor : Db → String → Option (List (String × Time))
get_cursor db job = cursor_of (find? (is_job job) db.job_cursors)

abbrev cursor_row : String → List (String × Time) → CursorRow
cursor_row job cursor = record { job = job; cursor = cursor }

unfoldable pub set_cursor : String → List (String × Time) → Db → Db
set_cursor job cursor db = record db {
  job_cursors =
      if any (is_job job) db.job_cursors
      then update_where (is_job job) (λ row. cursor_row job cursor) db.job_cursors
      else db.job_cursors ++ cursor_row job cursor ∷ [];
}

-- The newest audit row: the last one.
abbrev pub last_row {ℓ} : {A : Type ℓ} → List A → Option A
last_row [] = none
last_row (x ∷ []) = some x
last_row (x ∷ y ∷ ys) = last_row (y ∷ ys)

pub record SwitchState : Type 0 where
  pub engaged : Bool
  pub set_by : String
  pub via : String
  pub set_at : Option Time

abbrev switch_state : Option KillSwitchRow → SwitchState
switch_state none = record { engaged = true; set_by = "default"; via = "default"; set_at = none }
switch_state (some row) = record {
  engaged = row.engaged;
  set_by = row.set_by;
  via = row.via;
  set_at = some row.set_at;
}

unfoldable pub kill_switch_state : Db → SwitchState
kill_switch_state db = switch_state (last_row db.kill_switch_audit)

unfoldable pub set_kill_switch : Bool → String → String → Time → Db → SwitchState × Db
unfolding kill_switch_state
set_kill_switch engaged set_by via now db =
    let db' : Db = record db {
      kill_switch_audit =
          db.kill_switch_audit
          ++ (record { engaged = engaged; set_by = set_by; via = via; set_at = now }) ∷ [];
    } in
    (kill_switch_state db', db')
