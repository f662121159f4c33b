-- ===== src/Clients.antt =====
-- src/costanza/clients: the paging of the read-only clients. A request to a service is a parameter:
-- it gives the JSON of the response, or raises.
pub mod Paging
pub mod Arr
use costanza.Prelude.{
  ℕ, zero, suc, ◌+◌, String, Bool, true, false, Option, none, some, List, [], ◌∷◌, ◌++◌, map,
  length, ltb, if◌then◌else◌,
}
use costanza.Json.{
  Json, null, bool, int, str, arr, obj, Items, nil, cons, Fields, end, field, get_field, truthy,
}
use costanza.Result.{Exception, Result, ok, raised, bind}
use costanza.Stdlib.{chars}
use costanza.Schemas.{Time}
use costanza.Normalize.Common.{as_dict, get_dict, not_iterable, ◌>>=◌}
use costanza.Config.{value_error}

abbrev pub items_list : Items → List Json
items_list nil = []
items_list (cons x xs) = x ∷ items_list xs

abbrev keys_list : Fields → List Json
keys_list end = []
keys_list (field k v fs) = str k ∷ keys_list fs

-- list(v or [])
unfoldable pub listed : Json → Result (List Json)
listed null = ok []
listed (bool b) = if b then raised not_iterable else ok []
listed (int n) = if truthy (int n) then raised not_iterable else ok []
listed (str s) = ok (map str (chars s))
listed (arr xs) = ok (items_list xs)
listed (obj fs) = ok (keys_list fs)

-- data.get(k) or []
unfoldable pub page_of : String → Json → Result (List Json)
unfolding listed
page_of k response = as_dict response >>= λ fs. listed (get_field k fs)

-- seerr.py: the loop of `get_requests` and `get_users`, `fetch skip` being the request for the page
-- of `page_size` results after the first `skip`.
module _ (fetch : ℕ → Result Json) (page_size : ℕ) where
  unfoldable pub results_from : ℕ → ℕ → Result (List Json)
  unfolding page_of
  results_from zero skip = ok []
  results_from (suc pages) skip =
      let rest = results_from pages (skip + page_size) in
      fetch skip >>= λ response. page_of "results" response >>= λ page.
      if ltb (length page) page_size then ok page else (rest >>= λ more. ok (page ++ more))

-- Each caller's limits on the pages.
unfoldable pub get_requests : (ℕ → ℕ → Result Json) → Result (List Json)
unfolding results_from
get_requests fetch = results_from (fetch 100) 100 50 0

unfoldable pub get_users : (ℕ → ℕ → Result Json) → Result (List Json)
unfolding results_from
get_users fetch = results_from (fetch 100) 100 20 0

-- arr.py: what `get_history` does with a page's records: those before `since` stop it.
module _ (parse_time : String → Option Time) where
  abbrev parsed : Option Time → Result Time
  parsed none = raised (value_error "Invalid isoformat string")
  parsed (some t) = ok t

  abbrev not_date : Exception
  not_date = record { name = "TypeError"; message = "fromisoformat: argument must be str" }

  -- date and datetime.fromisoformat(date) < since
  is_before : Time → Json → Result Bool
  is_before since (str s) =
      if truthy (str s) then (parsed (parse_time s) >>= λ t. ok (ltb t since)) else ok false
  is_before since date = if truthy date then raised not_date else ok false

  pub stops : Option Time → Json → Result Bool
  unfolding is_before
  stops none entry = ok false
  stops (some since) entry = as_dict entry >>= λ fs. is_before since (get_field "date" fs)

  -- The records that are taken, and whether one stopped it.
  unfoldable pub scan : Option Time → List Json → Result (List Json × Bool)
  unfolding stops
  scan since [] = ok ([], false)
  scan since (entry ∷ entries) =
      let rest = scan since entries in
      stops since entry >>= λ stop.
      if stop then ok ([], true) else (rest >>= λ r. ok (entry ∷ r.0, r.1))

  module _ (fetch : ℕ → Result Json) (page_size : ℕ) (since : Option Time) where
    -- The loop from a page on, for a number of pages.
    unfoldable pub history_from : ℕ → ℕ → Result (List Json)
    unfolding scan page_of
    history_from zero page = ok []
    history_from (suc pages) page =
        let rest = history_from pages (suc page) in
        fetch page >>= λ response. page_of "records" response >>= λ entries.
        scan since entries >>= λ taken.
        if taken.1
        then ok taken.0
        else if ltb (length entries) page_size
        then ok taken.0
        else (rest >>= λ more. ok (taken.0 ++ more))

  unfoldable pub get_history : (ℕ → ℕ → Result Json) → Option Time → Result (List Json)
  unfolding history_from
  get_history fetch since = history_from (fetch 100) 100 since 20 1

-- tautulli.py: `_cmd` on a response.
unfoldable pub cmd_data : Json → Result Json
cmd_data response = as_dict response >>= λ fs.
    as_dict (get_dict "response" fs) >>= λ inner. ok (get_dict "data" inner)

unfoldable pub tautulli_history : Json → Result Json
unfolding cmd_data
tautulli_history response = cmd_data response >>= λ value. as_dict value >>= λ fs.
    ok (if truthy (get_field "data" fs) then get_field "data" fs else arr nil)

-- A value that is no list gives no users.
unfoldable pub tautulli_users : Json → Result (List Json)
unfolding cmd_data
tautulli_users response = cmd_data response >>= λ value. ok (elim value [
  | arr xs ↦ items_list xs
  | null ↦ []
  | bool b ↦ []
  | int n ↦ []
  | str s ↦ []
  | obj fs ↦ []
])
