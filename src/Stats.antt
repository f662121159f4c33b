-- ===== src/Stats.antt =====
-- src/costanza/stats: the aggregate queries. `day` writes the date of a time (`opened_at[:10]`).
pub mod Windows
use costanza.Prelude.{
  ℕ, String, Bool, true, false, not, ◌&&◌, ◌||◌, Option, none, some, List, [], ◌∷◌, ◌==◌, any,
  filter, count, map, take, length, sort_by, sort_with, text_le, leb, ltb, eqb, or_else,
  if◌then◌else◌, format, is_some, find?,
}
use costanza.Json.{ℤ, to_ℤ_truthy}
use costanza.Stdlib.{decimal_int}
use costanza.Schemas.{Time, EventType, type_name, MediaKind}
use costanza.Store.{Db, MediaRow, UserRow, EventRow, ChainRow, ChainState, NotificationRow}
use costanza.Store.Chains.{column_is}
use costanza.Store.Media.{kind_eq, get_media}
use costanza.Store.Notifications.{status_eq}
use costanza.Store.Outbox.{outbox_dead_count}
use costanza.Store.Users.{unmapped_identities, provider_name}
use costanza.Store

-- t >= since AND t < until
abbrev pub in_window : Time → Time → Time → Bool
in_window since until t = leb since t && ltb t until

abbrev pub is_type : EventType → EventRow → Bool
is_type type e = type_name e.type == type_name type

abbrev pub occurs : EventType → Time → Time → EventRow → Bool
occurs type since until e = is_type type e && in_window since until e.occurred_at

abbrev year_suffix : Option ℤ → List String
year_suffix none = []
year_suffix (some year) = if to_ℤ_truthy year then " (" ∷ decimal_int year ∷ ")" ∷ [] else []

-- _label
unfoldable pub label_of : Option String → Option ℤ → String
label_of none year = format ("(unknown)" ∷ year_suffix year)
label_of (some title) year =
    format ((if title == "" then "(unknown)" else title) ∷ year_suffix year)

abbrev pub media_label : MediaRow → String
media_label m = label_of m.title m.year

-- NULL comes before every text.
abbrev title_le : Option String → Option String → Bool
title_le none t = true
title_le (some s) none = false
title_le (some s) (some t) = text_le s t

pub record Arrival : Type 0 where
  pub media_id : String
  pub label : String
  pub kind : MediaKind

abbrev arrival_of : MediaRow → Arrival
arrival_of m = record { media_id = m.id; label = media_label m; kind = m.kind }

-- The media with an import in the window: DISTINCT gives each row of `media` once.
abbrev pub has_arrived : List EventRow → Time → Time → MediaRow → Bool
has_arrived events since until m =
    any (λ e. occurs EventType.media_imported since until e && column_is m.id e.media_id) events

unfoldable pub new_arrivals : Db → Time → Time → List Arrival
unfolding label_of
new_arrivals db since until = map arrival_of (
    sort_with (λ (a : MediaRow) (b : MediaRow). title_le a.title b.title)
      (filter (has_arrived db.events since until) db.media))

abbrev pub is_available : ChainState → Bool
is_available ChainState.available = true
is_available ChainState.partially_available = true
is_available _ = false

abbrev pub is_declined : ChainState → Bool
is_declined ChainState.declined = true
is_declined _ = false

abbrev pub closes_in : Time → Time → ChainRow → Bool
closes_in since until c = elim c.closed_at [ none ↦ false | some t ↦ in_window since until t ]

unfoldable pub opened_count : Db → Time → Time → ℕ
opened_count db since until =
    count (λ (c : ChainRow). in_window since until c.opened_at) db.request_chains

unfoldable pub available_count : Db → Time → Time → ℕ
available_count db since until =
    count (λ (c : ChainRow). is_available c.state && closes_in since until c) db.request_chains

unfoldable pub declined_count : Db → Time → Time → ℕ
declined_count db since until =
    count (λ (c : ChainRow). is_declined c.state && closes_in since until c) db.request_chains

abbrev titled : Option MediaRow → String
titled none = "(unknown)"
titled (some m) = elim m.title [
  | none ↦ "(unknown)"
  | some title ↦ if title == "" then "(unknown)" else media_label m
]

abbrev joined_media : Db → Option String → Option MediaRow
joined_media db none = none
joined_media db (some media_id) = get_media db media_id

-- The chains that were open already when the window began, and still are.
unfoldable pub stale : Db → (Time → String) → Time → List String
unfolding label_of get_media
stale db day since =
    map
      (λ (c : ChainRow).
        format (titled (joined_media db c.media_id) ∷ " — since " ∷ day c.opened_at ∷ []))
      (sort_by (λ (c : ChainRow). c.opened_at)
        (filter (λ (c : ChainRow). not (is_some c.closed_at) && ltb c.opened_at since)
          db.request_chains))

pub record Requests : Type 0 where
  pub opened : ℕ
  pub available : ℕ
  pub declined : ℕ
  pub stale : List String

unfoldable pub requests_summary : Db → (Time → String) → Time → Time → Requests
unfolding opened_count available_count declined_count stale
requests_summary db day since until = record {
  opened = opened_count db since until;
  available = available_count db since until;
  declined = declined_count db since until;
  stale = stale db day since;
}

-- A group of a GROUP BY with its COUNT(*); a group without rows is left out.
abbrev counted {ℓ} : {A : Type ℓ} → (A → ℕ) → List A → List (A × ℕ)
counted n [] = []
counted n (x ∷ xs) = if eqb (n x) 0 then counted n xs else (x, n x) ∷ counted n xs

abbrev watches_of : List EventRow → Time → Time → MediaRow → ℕ
watches_of events since until m =
    count (λ e. occurs EventType.watch_completed since until e && column_is m.id e.media_id) events

abbrev watches_by : List EventRow → Time → Time → UserRow → ℕ
watches_by events since until u =
    count (λ e. occurs EventType.watch_completed since until e && column_is u.id e.user_id) events

-- ORDER BY n DESC, title
abbrev more_watched : MediaRow × ℕ → MediaRow × ℕ → Bool
more_watched a b = if eqb a.1 b.1 then title_le a.0.title b.0.title else ltb b.1 a.1

pub record Watches : Type 0 where
  pub top : List (String × ℕ)
  pub per_user : List (String × ℕ)

unfoldable pub watch_summary : Db → Time → Time → Watches
unfolding label_of
watch_summary db since until = record {
  top =
      map (λ (g : MediaRow × ℕ). (media_label g.0, g.1))
        (take 10 (sort_with more_watched (counted (watches_of db.events since until) db.media)));
  per_user =
      map (λ (g : UserRow × ℕ). (g.0.display_name, g.1))
        (sort_with (λ (a : UserRow × ℕ) (b : UserRow × ℕ). leb b.1 a.1)
          (counted (watches_by db.events since until) db.users));
}

pub record Ops : Type 0 where
  pub gaps : ℕ
  pub unknown_events : ℕ
  pub dead_notifications : ℕ
  pub dead_outbox : ℕ
  pub unmapped_identities : List String

unfoldable pub ops_summary : Db → Time → Time → Ops
unfolding outbox_dead_count unmapped_identities
ops_summary db since until = record {
  gaps = count (occurs EventType.reconcile_gap since until) db.events;
  unknown_events = count (occurs EventType.source_unknown since until) db.events;
  dead_notifications =
      count (λ (n : NotificationRow). status_eq n.status Store.NotificationStatus.dead)
        db.notifications;
  dead_outbox = outbox_dead_count db;
  unmapped_identities =
      map (λ r. format (provider_name r.0 ∷ ":" ∷ r.1 ∷ [])) (unmapped_identities db);
}

-- SELECT DISTINCT, in the order of the first rows.
abbrev distinct : List String → List String
distinct [] = []
distinct (s ∷ ss) = s ∷ filter (λ t. not (t == s)) (distinct ss)

abbrev or_text : Option String → String → String
or_text none s = s
or_text (some t) s = t

-- COALESCE(u.display_name, c.requested_by, '(unmapped)')
abbrev requester : Db → ChainRow → String
requester db c = elim c.requested_by [
  | none ↦ "(unmapped)"
  | some id ↦ elim (find? (λ (u : UserRow). u.id == id) db.users) [
    | none ↦ id
    | some u ↦ u.display_name
  ]
]

abbrev is_watched : List EventRow → ChainRow → Bool
is_watched events c = elim c.media_id [
  | none ↦ false
  | some id ↦ any (λ e. is_type EventType.watch_completed e && column_is id e.media_id) events
]

pub record UserRequests : Type 0 where
  pub user : String
  pub made : ℕ
  pub available : ℕ
  pub watched : ℕ

requests_of : Db → String → UserRequests
requests_of db display = record {
  user = display;
  made = count (λ (c : ChainRow). requester db c == display) db.request_chains;
  available =
      count (λ (c : ChainRow). requester db c == display && is_available c.state) db.request_chains;
  watched =
      count (λ (c : ChainRow). requester db c == display && is_watched db.events c)
        db.request_chains;
}

unfoldable pub requests_per_user : Db → List UserRequests
unfolding requests_of
requests_per_user db =
    sort_with (λ (a : UserRequests) (b : UserRequests). leb b.made a.made)
      (map (requests_of db) (distinct (map (requester db) db.request_chains)))

pub record UserWatches : Type 0 where
  pub user : String
  pub completions : ℕ
  pub titles : ℕ
  pub movies : ℕ
  pub episodes : ℕ

abbrev media_ids : List EventRow → List String
media_ids [] = []
media_ids (e ∷ es) = elim e.media_id [ none ↦ media_ids es | some id ↦ id ∷ media_ids es ]

abbrev watched_kind : Db → MediaKind → EventRow → Bool
watched_kind db kind e = elim (joined_media db e.media_id) [
  | none ↦ false
  | some m ↦ kind_eq m.kind kind
]

watches_of_user : Db → UserRow → UserWatches
unfolding get_media
watches_of_user db u =
    let mine =
      filter (λ (e : EventRow). is_type EventType.watch_completed e && column_is u.id e.user_id)
        db.events in
    record {
      user = u.display_name;
      completions = length mine;
      titles = length (distinct (media_ids mine));
      movies = count (watched_kind db MediaKind.movie) mine;
      episodes = count (watched_kind db MediaKind.series) mine;
    }

-- The members with a watch, by the number of their watches.
unfoldable pub watch_per_user : Db → List UserWatches
unfolding watches_of_user
watch_per_user db =
    sort_with (λ (a : UserWatches) (b : UserWatches). leb b.completions a.completions)
      (filter (λ (w : UserWatches). not (eqb w.completions 0)) (map (watches_of_user db) db.users))
