-- ===== src/Jobs/Reconcile/Watches.antt =====
-- The watches that src/costanza/jobs/reconcile.py expects, against the webhook normalizer of
-- src/costanza/normalize/tautulli.py.
use costanza.Prelude.{String, ◌≡◌, refl, true}
use costanza.Json.{Fields, get_field, truthy}
use costanza.Stdlib.{Stdlib, py_str}
use costanza.Normalize.Tautulli.{watch_key, user_key, rating_key}
use costanza.Jobs.Reconcile.Tautulli.{watcher_key, history_key}

-- A watch in Tautulli's history has the key that its webhook has, by the trigger or derived from a
-- stop, where Python's `str` writes the two's user ids alike, and their rating keys, as it does for
-- a number in the history and its digits in the webhook; the ids and the webhook's rating key must
-- be truthy.
pub history_key-watch_key :
    (lib : Stdlib) (source : String) (payload row : Fields)
    → py_str lib (get_field "user_id" row) ≡ py_str lib (get_field "user_id" payload)
    → py_str lib (get_field "rating_key" row) ≡ py_str lib (get_field "rating_key" payload)
    → truthy (get_field "user_id" row) ≡ true
    → truthy (get_field "user_id" payload) ≡ true
    → truthy (get_field "rating_key" payload) ≡ true
    → history_key lib source row ≡ watch_key lib source payload
unfolding history_key watch_key watcher_key user_key rating_key
history_key-watch_key lib source payload row same_user same_rating has_id has_user has_rating =
    rw (has_id, has_user, has_rating, same_user, same_rating) refl
