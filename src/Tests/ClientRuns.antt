-- ===== src/Tests/ClientRuns.antt =====
-- Tests of the clients, the statistics, the digest's contents and the other jobs.
use costanza.Prelude.{
  eqb, ap, ◌-◌, ℕ, zero, suc, ◌+◌, ◌*◌, String, ◌≡◌, refl, true, false, Option, none, some, List,
  [], ◌∷◌, take, any, find?, arith, if◌then◌else◌, ◌==◌,
}
use costanza.Json.{Json, Items, obj, arr, nil, cons, str, int, end, field, pos}
use costanza.Result.{Result, ok, raised}
use costanza.Schemas.{Time}
use costanza.Config.{SourceConfig}
use costanza.Prelude.{format}
use costanza.Stdlib.{py_str, decimal_int}
use costanza.Store.Users.{observe_identity, resolve_identity}
use costanza.Clients.{items_list, page_of, results_from, history_from, scan}
use costanza.Clients.Paging.{drop, IsPaged, results_from-all}
use costanza.Clients.Arr.{IsHistory, taken, history_from-all}
use costanza.Stats.{requests_summary, ops_summary}
use costanza.Stats.Windows.{summaries-split}
use costanza.Jobs.Digest.{digest_key}
use costanza.Jobs.Digest.Content.{
  has_bar, parse_digest_key, parse_digest_key-digest_key, build_digest_data,
  build_digest_data-described,
}
use costanza.Notify.Weekly.{render_digest}
use costanza.Jobs.Identities.{run_identity_sync, observe_unmapped}
use costanza.Jobs.Identities.Again.{run_identity_sync_again}
use costanza.Jobs.Reconcile.Run.{Client, Clock, Summary, run_source}
use costanza.Jobs.Reconcile.Settled.{run_source-Settled}
use costanza.Normalize.Common.{no_attribute}
use costanza.Normalize.Tautulli.{watch_key}
use costanza.Jobs.Reconcile.Tautulli.{history_key}
use costanza.Jobs.Reconcile.Watches.{history_key-watch_key}
use costanza.Jobs.Digest.Content.{render_key, render_key-digest_key}
use costanza.Json.{Fields}
use costanza.Tests.Samples.{db, lib, hash, routing}

abbrev items : List Json → Items
items [] = nil
items (x ∷ xs) = cons x (items xs)

items_list-items : (xs : List Json) → items_list (items xs) ≡ xs
items_list-items [] = refl
items_list-items (x ∷ xs) = ap (λ ys. x ∷ ys) (items_list-items xs)

abbrev entry : ℕ → String → Json
entry n date = obj (field "id" (int (pos n)) (field "date" (str date) end))

-- A service with three entries, in pages of two.
abbrev entries : List Json
entries = entry 3 "30" ∷ entry 2 "20" ∷ entry 1 "10" ∷ []

abbrev results : ℕ → Result Json
results skip = ok (obj (field "results" (arr (items (take 2 (drop skip entries)))) end))

results-IsPaged : IsPaged results "results" 2 entries
unfolding page_of
results-IsPaged skip = ap ok (items_list-items (take 2 (drop skip entries)))

results_from-all_example : results_from results 2 5 0 ≡ ok entries
results_from-all_example = results_from-all results 2 5 entries results-IsPaged (omega arith)

-- Pages count from 1.
abbrev records : ℕ → Result Json
records page = ok (obj (field "records" (arr (items (take 2 (drop ((page - 1) * 2) entries)))) end))

abbrev parse_time : String → Option Time
parse_time s =
    if s == "10"
    then some 10
    else if s == "20"
    then some 20
    else if s == "30"
    then some 30
    else none

records-IsHistory : IsHistory parse_time (some 15) records 2 entries
unfolding page_of
records-IsHistory k =
    let e : suc k - 1 ≡ k = omega arith in
    rw e (ap ok (items_list-items (take 2 (drop (k * 2) entries))))

history_from-all_example :
    history_from parse_time records 2 (some 15) 5 1
    ≡ taken parse_time (some 15) (scan parse_time (some 15) entries)
history_from-all_example =
    history_from-all parse_time (some 15) records 2 5 entries records-IsHistory (omega arith)

scan_test :
    taken parse_time (some 15) (scan parse_time (some 15) entries)
    ≡ ok (entry 3 "30" ∷ entry 2 "20" ∷ [])
unfolding scan
scan_test = refl

-- A clock with two times.
abbrev iso : Time → String
iso t = if eqb t 0 then "A" else "B"

summaries-split_example :
    ((requests_summary db iso 0 900).opened
      ≡ (requests_summary db iso 0 150).opened + (requests_summary db iso 150 900).opened)
    × ((requests_summary db iso 0 900).available
        ≡ (requests_summary db iso 0 150).available + (requests_summary db iso 150 900).available)
    × ((requests_summary db iso 0 900).declined
        ≡ (requests_summary db iso 0 150).declined + (requests_summary db iso 150 900).declined)
    × ((ops_summary db 0 900).gaps ≡ (ops_summary db 0 150).gaps + (ops_summary db 150 900).gaps)
    × ((ops_summary db 0 900).unknown_events
        ≡ (ops_summary db 0 150).unknown_events + (ops_summary db 150 900).unknown_events)
summaries-split_example = summaries-split 0 150 900 (omega arith) (omega arith) db iso

build_digest_data-described_example :
    (render_digest (build_digest_data db iso 0 900)).description ≡ ""
build_digest_data-described_example = build_digest_data-described db iso 0 900

-- Seerr names two users, one of them twice.
abbrev kinds : String → Option String
kinds name = some name

abbrev user : String → Json
user name = obj (field "username" (str name) end)

abbrev clients : List (String × Result (List Json))
clients =
    ("seerr", ok (user "alice" ∷ user "bob" ∷ user "alice" ∷ []))
    ∷ ("tautulli", raised no_attribute)
    ∷ []

run_identity_sync_test : (run_identity_sync lib kinds clients 0 db).0 ≡ 2
unfolding run_identity_sync observe_unmapped observe_identity resolve_identity any find? py_str
run_identity_sync_test = refl

run_identity_sync_again_example :
    run_identity_sync lib kinds clients 0 (run_identity_sync lib kinds clients 0 db).1
    ≡ (0, (run_identity_sync lib kinds clients 0 db).1)
run_identity_sync_again_example = run_identity_sync_again lib kinds clients db

-- A client that raises.
abbrev client : Client
client = record { get_requests = raised no_attribute; get_history = λ since. ok [] }

abbrev clock : Clock
clock = record { parse_time = parse_time; from_timestamp = λ n. ok 0; isoformat = iso }

abbrev seerr : SourceConfig
seerr = record { name = "seerr"; kind = "seerr"; url = none; enabled = true }

run_source-Settled_example :
    run_source lib hash clock routing (some false) 900 seerr (some client) db
    ≡ (some (Summary.error no_attribute.message), db)
run_source-Settled_example =
    run_source-Settled lib hash clock routing (some false) 900 seerr (some client) db

-- Times written in strokes.
abbrev strokes : Time → String
strokes zero = String.[]
strokes (suc t) = String.◌∷◌ "x" (strokes t)

abbrev tally : String → ℕ
tally String.[] = 0
tally (String.◌∷◌ c s) = suc (tally s)

strokes_plain : (t : Time) → has_bar (strokes t) ≡ false
unfolding has_bar
strokes_plain zero = refl
strokes_plain (suc t) = strokes_plain t

tally-strokes : (t : Time) → tally (strokes t) ≡ t
tally-strokes zero = refl
tally-strokes (suc t) = ap suc (tally-strokes t)

abbrev read_strokes : String → Option Time
read_strokes s = some (tally s)

parse_digest_key-digest_key_example :
    parse_digest_key read_strokes (digest_key strokes 2 3) ≡ some (2, 3)
parse_digest_key-digest_key_example =
    parse_digest_key-digest_key strokes read_strokes strokes_plain (λ t. ap some (tally-strokes t))
      2 3

render_key-digest_key_example :
    render_key read_strokes iso 7 (digest_key strokes 2 3) db
    ≡ ok (render_digest (build_digest_data db iso 2 3))
render_key-digest_key_example =
    render_key-digest_key strokes read_strokes strokes_plain (λ t. ap some (tally-strokes t)) iso 7
      2 3 db

-- The webhook of a watch, whose template writes texts, and its row in the history.
abbrev watched : Fields
watched = field "rating_key" (str "51234") (field "user_id" (str "12") end)

abbrev history : Fields
history = field "user_id" (int (pos 12)) (field "rating_key" (str "51234") end)

history_key-watch_key_example :
    history_key lib "tautulli" history ≡ watch_key lib "tautulli" watched
unfolding py_str decimal_int format
history_key-watch_key_example =
    history_key-watch_key lib "tautulli" watched history refl refl refl refl refl
