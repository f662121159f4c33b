-- ===== src/Jobs/Digest/Content.antt =====
-- src/costanza/jobs/digest.py: what a digest says, and its key. `isoformat` and `parse_time` write and
-- read a time, `day` writes its date.
use Prim.Native.Char.{code}
use Prim.Native.String
use Prim.Native.String.append
use text.Mathlib.TextLemmas.{append-nil}
use costanza.Prelude.{
  ◌-◌, String, ◌≡◌, refl, ap, ◌∙◌, Bool, false, ◌||◌, Option, none, some, List, [], ◌∷◌, ◌++◌, eqb,
  if◌then◌else◌, format, or_else, arith,
}
use costanza.Result.{Result, ok}
use costanza.Schemas.{Time, RenderedMessage}
use costanza.Store.{Db}
use costanza.Store.Control.{get_cursor}
use costanza.Stats.{Requests, new_arrivals, requests_summary, watch_summary, ops_summary}
use costanza.Notify.Weekly.{
  DigestData, request_fields, arrival_fields, later_fields, digest_fields, describe_fields,
  render_digest,
}
use costanza.Jobs.Digest.{digest_key, lookup, default_period, cursor_job}

unfoldable pub build_digest_data : Db → (Time → String) → Time → Time → DigestData
unfolding new_arrivals requests_summary watch_summary ops_summary
build_digest_data db day since until = record {
  period_start = some (day since);
  period_end = some (day until);
  new_arrivals = new_arrivals db since until;
  requests = some (requests_summary db day since until);
  watches = watch_summary db since until;
  ops = ops_summary db since until;
}

-- s.removeprefix(p)
remove_prefix : String → String → String
remove_prefix p s = elim (after p s) [ none ↦ s | some rest ↦ rest ]
  where
    after : String → String → Option String
    after String.[] t = some t
    after (String.◌∷◌ c p) String.[] = none
    after (String.◌∷◌ c p) (String.◌∷◌ d t) =
        let rest = after p t in if eqb (code c) (code d) then rest else none

-- The parts before and behind the first bar, if the text has one.
partition_bar : String → Option (String × String)
partition_bar String.[] = none
partition_bar (String.◌∷◌ c s) =
    let rest = partition_bar s in
    if eqb (code c) b'|'
    then some (String.[], s)
    else elim rest [ none ↦ none | some parts ↦ some (String.◌∷◌ c parts.0, parts.1) ]

abbrev both_times : Option Time → Option Time → Option (Time × Time)
both_times none until = none
both_times (some since) none = none
both_times (some since) (some until) = some (since, until)

abbrev parse_parts : (String → Option Time) → Option (String × String) → Option (Time × Time)
parse_parts parse_time none = none
parse_parts parse_time (some (start, last)) = both_times (parse_time start) (parse_time last)

unfoldable pub parse_digest_key : (String → Option Time) → String → Option (Time × Time)
unfolding remove_prefix partition_bar
parse_digest_key parse_time key =
    parse_parts parse_time (partition_bar (remove_prefix "digest:" key))

prefix_removed : (ss : List String) → remove_prefix "digest:" (format ("digest:" ∷ ss)) ≡ format ss
unfolding remove_prefix format
prefix_removed ss =
    rw
      (
        append.cons "d" "igest:" (format ss),
        append.cons "i" "gest:" (format ss),
        append.cons "g" "est:" (format ss),
        append.cons "e" "st:" (format ss),
        append.cons "s" "t:" (format ss),
        append.cons "t" ":" (format ss),
        append.cons ":" "" (format ss),
        append.nil (format ss),
      )
      refl

-- No character of the text is a bar.
unfoldable pub has_bar : String → Bool
has_bar String.[] = false
has_bar (String.◌∷◌ c s) = eqb (code c) b'|' || has_bar s

partition_bar-format :
    (s t : String) → has_bar s ≡ false → partition_bar (format (s ∷ "|" ∷ t ∷ [])) ≡ some (s, t)
unfolding partition_bar format has_bar
partition_bar-format String.[] t h =
    rw (append.nil, append.cons "|" "" (String.◌++◌ t ""), append-nil t, append.nil t) refl
partition_bar-format (String.◌∷◌ c s) t h =
    let ih = partition_bar-format s t in
    rw (append.cons c s (String.◌++◌ "|" (String.◌++◌ t ""))) (ground (arith, ih))

-- A key that does not parse: the window of the cursor, which ends at `now` where it has no end.
unfoldable pub cursor_window : Db → Time → Time × Time
cursor_window db now =
    let cursor = or_else (get_cursor db cursor_job) [] in
    let until = or_else (lookup "period_end_at" cursor) now in
    (or_else (lookup "period_start_at" cursor) (until - default_period), until)

abbrev window_of : Db → Time → Option (Time × Time) → Time × Time
window_of db now none = cursor_window db now
window_of db now (some period) = period

-- `digest_renderer`
unfoldable pub render_key :
    (String → Option Time) → (Time → String) → Time → String → Db → Result RenderedMessage
unfolding parse_digest_key cursor_window build_digest_data render_digest
render_key parse_time day now key db =
    let period = window_of db now (parse_digest_key parse_time key) in
    ok (render_digest (build_digest_data db day period.0 period.1))

-- The key of a digest gives its window back, if `isoformat` writes no bar and is undone by
-- `parse_time`.
pub parse_digest_key-digest_key :
    (isoformat : Time → String) (parse_time : String → Option Time)
    → ((t : Time) → has_bar (isoformat t) ≡ false)
    → ((t : Time) → parse_time (isoformat t) ≡ some t)
    → (since until : Time)
    → parse_digest_key parse_time (digest_key isoformat since until) ≡ some (since, until)
unfolding parse_digest_key digest_key
parse_digest_key-digest_key isoformat parse_time plain inverse since until =
    ap (λ body. parse_parts parse_time (partition_bar body))
      (prefix_removed (isoformat since ∷ "|" ∷ isoformat until ∷ []))
    ∙ ap (parse_parts parse_time)
        (partition_bar-format (isoformat since) (isoformat until) (plain since))
    ∙ rw (inverse since, inverse until) refl

-- A digest that is rendered from its own key, whatever the time is then, says what the database holds
-- of the window that the key was made for, if `isoformat` writes no bar and is undone by `parse_time`.
pub render_key-digest_key :
    (isoformat : Time → String) (parse_time : String → Option Time)
    → ((t : Time) → has_bar (isoformat t) ≡ false)
    → ((t : Time) → parse_time (isoformat t) ≡ some t)
    → (day : Time → String) (now since until : Time) (db : Db)
    → render_key parse_time day now (digest_key isoformat since until) db
      ≡ ok (render_digest (build_digest_data db day since until))
unfolding render_key
render_key-digest_key isoformat parse_time plain inverse day now since until db =
    ap
      (λ period.
        let window = window_of db now period in
        ok (render_digest (build_digest_data db day window.0 window.1)))
      (parse_digest_key-digest_key isoformat parse_time plain inverse since until)

fields-described :
    (arrivals rest : List (String × String)) (r : Requests)
    → describe_fields (arrivals ++ (request_fields (some r) ++ rest)) ≡ ""
unfolding describe_fields
fields-described [] rest r = refl
fields-described (f ∷ fs) rest r = refl

digest_fields-described :
    (d : DigestData) (r : Requests) → d.requests ≡ some r → describe_fields (digest_fields d) ≡ ""
unfolding digest_fields
digest_fields-described d r e =
    rw e (fields-described (arrival_fields d.new_arrivals) (later_fields d) r)

-- No digest of any window of any database has a description, so that the text for a quiet week is
-- never sent: the field `Requests` is always there.
pub build_digest_data-described :
    (db : Db) (day : Time → String) (since until : Time)
    → (render_digest (build_digest_data db day since until)).description ≡ ""
unfolding render_digest build_digest_data
build_digest_data-described db day since until =
    digest_fields-described (build_digest_data db day since until)
      (requests_summary db day since until) refl
