-- ===== src/Lib.antt =====
-- Costanza turns webhooks of media servers into events and notifications. A webhook is archived and
-- queued (src/costanza/ingest), the queue's worker normalizes it, correlates it (src/costanza/
-- correlate) and fans it out to a ledger of notifications (src/costanza/notify), and a second loop
-- sends the ledger's due rows to a channel. All of it stands on one SQLite store
-- (src/costanza/store/db.py), whose tables are the state that the parts share.
--
--   Prelude        helpers on lists, texts, Boolean tests and keyed tables
--   Json, Result, Stdlib
--                  JSON values, exceptions as values, and what is used of Python's own library
--   Schemas        schemas.py: events, media and user references, messages
--   Config         config.py: the models of routing.yaml and their checks
--   Store          store/db.py: the tables as lists of rows, one child per table. `Db` is the whole
--                  state, and an operation that may raise is a function of it into a result and the
--                  state afterwards. Store.Outbox.Prune is on `prune`.
--   Ingest         ingest/sources.py, ingest/routes.py; Ingest.Webhook is on the handler and
--                  Ingest.Headers on the headers that it archives
--   Outbox         outbox.py; Outbox.Settled is on one pass over the queue
--   Correlate      correlate/engine.py, correlate/identity.py. Rule is the rule for `apply`, Frames
--                  and Aside what its steps leave alone; Chains, Dedup, Stored and Repair are on
--                  what it does.
--   Notify         notify: Router (Router.Channels), Limits (Limits.Window), Render for events,
--                  Weekly for the digest, and Pipeline (Pipeline.Ledger on the fan-out,
--                  Pipeline.Rounds and Pipeline.Sends on the send pass)
--   Normalize      normalize: one child for each source, Common, and Dispatch for the choice
--   Worker         worker.py, `build_processor`: it uses a normalizer, the correlator and the
--                  ledger's fan-out, and is what Outbox takes as its callable (Worker.Pass,
--                  Worker.Stores)
--   Jobs           jobs/reconcile.py: Reconcile for Seerr, Reconcile.Records and Reconcile.Arr for
--                  Radarr and Sonarr, Reconcile.Tautulli, Reconcile.Run for the gap markers and the
--                  run over all sources; Expected, Watches and Twins are on the keys, Keeps, Whole
--                  and Cursors on what a run does to the store, Settled on how it ends.
--                  jobs/digest.py: Digest (Digest.Windows) and Digest.Content.
--                  jobs/identity_sync.py: Identities (Identities.Again)
--   Stats          stats: the aggregate queries; Stats.Windows is on windows that meet
--   Clients        clients: the paging of the read-only clients (Clients.Paging, Clients.Arr)
--   Api            api/app.py: the bearer guard and the routes (Api.Guard)
--   Program        the whole: Writes has the kinds of write that a database may see, Schema its
--                  constraints as an invariant, and Steps, Sync, Runs, Sends, Requests and Calls show
--                  each part of the program to be a sequence of writes. History puts the parts
--                  together in any order, and Memory is on what is never forgotten.
--   Tests          runs on small inputs
--
-- The model's conventions. A time is a number of microseconds, and the ISO text that a column holds
-- for one is that number again; `utcnow()` is an argument. A numeric id or year is an integer, and
-- JSON numbers are integers. The UUIDs that `new_id` returns are a sequence that the state holds.
-- A constraint of the schema that a statement breaks raises and changes no table. SQLite's ORDER BY
-- is a stable sort in order of insertion, and `LIKE` folds ASCII letters. A cursor holds times, not
-- their texts. The event that Python mutates is returned. SHA-256, `json.dumps`, `repr` of a text,
-- `json.loads`, the decoding of bytes, the environment, the channel and the injected callables are
-- parameters. Loops are recursion on the list that they go through, so that no fuel is needed;
-- `decimal` divides by ten at most as often as the number is large.
--
-- Where the model is simpler than the code: integers have no bound, while SQLite refuses one of 2^63
-- or more with an OverflowError; the backoff takes any number of attempts, while Python's raises an
-- OverflowError from attempt 1024 on. A new source has the id after the largest one, while
-- AUTOINCREMENT may leave a gap. The two events of a Tautulli stop have a media and a user of their
-- own, while Python's share theirs, so that the model looks the media up twice.
--
-- Not modelled: the asyncio loops, the HTTP requests of the clients and the parsing of those of the
-- API, Discord, logs and metrics, which are I/O, and the tool that replays fixtures. An operation of
-- the store is one step, and one run of a part ends before another begins.
pub mod Prelude
pub mod Json
pub mod Result
pub mod Schemas
pub mod Stdlib
pub mod Config
pub mod Store
pub mod Notify
pub mod Outbox
pub mod Correlate
pub mod Ingest
pub mod Normalize
pub mod Clients
pub mod Stats
pub mod Api
pub mod Worker
pub mod Program
pub mod Jobs
pub mod Tests
