-- ===== src/Program/History.antt =====
-- The history of the database: whatever the parts of the program do, in whatever order.
use costanza.Prelude.{ℕ, String, Bool, Option, List, [], count, arith}
use costanza.Json.{Json}
use costanza.Result.{Result}
use costanza.Stdlib.{Stdlib}
use costanza.Schemas.{Time, RenderedMessage}
use costanza.Config.{RoutingConfig, SourceConfig, HouseholdUser}
use costanza.Store.{Db}
use costanza.Store.Sync.{Case, sync_sources, sync_users}
use costanza.Store.Outbox.{prune}
use costanza.Jobs.Identities.{run_identity_sync}
use costanza.Api.{Call, handle}
use costanza.Program.Calls.{run_identity_sync-Writes, handle-Writes}
use costanza.Notify.Limits.{RateLimiter}
use costanza.Notify.Pipeline.{Notifier, SpecialRenderers, send_due_once}
use costanza.Outbox.{Policy, process_outbox_once}
use costanza.Worker.{Normalize, process}
use costanza.Jobs.Reconcile.Run.{Client, Clock, run_reconcile}
use costanza.Jobs.Digest.{run_digest}
use costanza.Ingest.{Request, Wire, receive_webhook}
use costanza.Program.Writes.{Writes, none_yet, Writes-trans}
use costanza.Program.Schema.{IsWellFormed}
use costanza.Program.Schema.Kept.{Writes-IsWellFormed}
use costanza.Program.Steps.{prune_at-Writes}
use costanza.Program.Sync.{sync_sources-Writes, sync_users-Writes}
use costanza.Program.Runs.{pass-Writes, run_reconcile-Writes}
use costanza.Program.Sends.{send_due_once-Writes}
use costanza.Program.Requests.{receive_webhook-Writes, run_digest-Writes}

-- One part of the program runs once. What it is given from outside (requests, clients, channels,
-- the configuration, the clock) may be different each time.
pub data Act (db : Db) : Db → Type 0 where
  start :
      (case : Case) (sources : List SourceConfig) (users : List HouseholdUser)
      → Act db (sync_users case users (sync_sources case sources db))
  webhook :
      (routing : RoutingConfig) (limit : ℕ) (secret : SourceConfig → Option String) (wire : Wire)
      (now : Time) (name : String) (request : Request)
      → Act db (receive_webhook routing limit secret wire now name request db).1
  work :
      (lib : Stdlib) (hash : RenderedMessage → String) (loads : String → Result Json)
      (normalize : Normalize) (routing : RoutingConfig) (env_override : Bool) (policy : Policy)
      (now : Time) (limit : ℕ)
      → Act db
          (process_outbox_once
            (process lib hash loads normalize routing env_override now)
            policy
            now
            limit
            db).1
  send :
      (lib : Stdlib) (special : SpecialRenderers) (notifier : Notifier) (policy : Policy)
      (limiter : RateLimiter) (deliveries : List (String × RenderedMessage)) (env_override : Bool)
      (limit : ℕ) (now : Time)
      → Act db
          (send_due_once lib special notifier policy env_override limit now
            (record { db = db; limiter = limiter; deliveries = deliveries })).1.db
  reconcile :
      (lib : Stdlib) (hash : RenderedMessage → String) (clock : Clock) (routing : RoutingConfig)
      (kill : Option Bool) (now : Time) (clients : String → Option Client)
      (sources : List SourceConfig)
      → Act db (run_reconcile lib hash clock routing kill now clients sources db).1
  digest :
      (isoformat : Time → String) (routing : RoutingConfig) (env_override : Bool) (now : Time)
      → Act db (run_digest isoformat routing env_override now db).1
  retain : (retention_days : ℕ) (now : Time) → Act db (prune retention_days now db).1
  observe :
      (lib : Stdlib) (kinds : String → Option String) (clients : List (String × Result (List Json)))
      → Act db (run_identity_sync lib kinds clients 0 db).1
  call :
      (token : Option String) (env_override : Bool) (day : Time → String) (now : Time)
      (authorization : String) (c : Call)
      → Act db (handle token env_override day now authorization c db).1

-- Any number of runs, in any order.
pub data Acts (db : Db) : Db → Type 0 where
  nothing : Acts db db
  and_then : {s t : Db} → Acts db s → Act s t → Acts db t

pub Acts-trans : {a b c : Db} → Acts a b → Acts b c → Acts a c
Acts-trans acts nothing = acts
Acts-trans acts (and_then later act) = and_then (Acts-trans acts later) act

Act-Writes : {db s : Db} → Act db s → Writes db s
unfolding prune
Act-Writes {db} (start case sources users) =
    sync_users-Writes case users (sync_sources case sources db)
      (sync_sources-Writes case sources db none_yet)
Act-Writes {db} (webhook routing limit secret wire now name request) =
    receive_webhook-Writes routing limit secret wire db now name request
Act-Writes {db} (work lib hash loads normalize routing env_override policy now limit) =
    pass-Writes lib hash loads normalize routing env_override policy now limit db
Act-Writes {db} (send lib special notifier policy limiter deliveries env_override limit now) =
    send_due_once-Writes lib special notifier policy env_override limit now
      (record { db = db; limiter = limiter; deliveries = deliveries })
Act-Writes {db} (reconcile lib hash clock routing kill now clients sources) =
    run_reconcile-Writes lib hash clock routing kill now clients sources db
Act-Writes {db} (digest isoformat routing env_override now) =
    run_digest-Writes isoformat db routing env_override now
Act-Writes {db} (retain retention_days now) = prune_at-Writes none_yet _
Act-Writes {db} (observe lib kinds clients) =
    run_identity_sync-Writes lib kinds clients 0 db none_yet
Act-Writes {db} (call token env_override day now authorization c) =
    handle-Writes token env_override day now db authorization c

-- The parts of the program (start-up, a webhook request, a pass of the worker, a pass of the
-- sender, a reconcile run, a digest run, a prune, an identity sync and a call of the API), in any number and order
-- and with any outside input, change the database by a sequence of the writes of `Write` only.
pub Acts-Writes : {db s : Db} → Acts db s → Writes db s
Acts-Writes nothing = none_yet
Acts-Writes (and_then acts act) = Writes-trans (Acts-Writes acts) (Act-Writes act)

-- The database of an installation that has not run yet.
abbrev pub empty : (ℕ → String) → Db
empty ids = record {
  sources = [];
  raw_events = [];
  outbox = [];
  media = [];
  users = [];
  identities = [];
  events = [];
  request_chains = [];
  notifications = [];
  job_cursors = [];
  kill_switch_audit = [];
  ids = ids;
  drawn = 0;
}

empty-IsWellFormed : (ids : ℕ → String) → IsWellFormed (empty ids)
unfolding count
empty-IsWellFormed ids = record {
  queue = record { raw_ids = λ id. omega arith; ids = λ id. omega arith; references = tt };
  media = λ id. omega arith;
  identities = λ p x. omega arith;
  events = record { keys = λ key. omega arith; references = tt };
  chains = record { ids = λ id. omega arith; requests = λ id. omega arith };
  ledger = record { ids = λ id. omega arith; keys = λ key channel. omega arith };
}

-- Whatever the parts of the program did since the database was empty, in any number and order and
-- with any outside input: the ids of raw events, queue rows, media, chains and ledger rows are
-- unique, and so are identities, event keys, request ids of chains and pairs of event key and
-- channel in the ledger; every queue row has its raw event and every event its source.
pub Acts-IsWellFormed : (ids : ℕ → String) (s : Db) → Acts (empty ids) s → IsWellFormed s
Acts-IsWellFormed ids s acts = Writes-IsWellFormed (Acts-Writes acts) (empty-IsWellFormed ids)
