-- ===== src/Ingest/Headers.antt =====
-- Which headers src/costanza/ingest/routes.py archives.
use costanza.Prelude.{
  String, ◌≡◌, refl, ap, true, false, any, List, [], ◌∷◌, arith, Bool-cases, inl, inr, ◌==◌, eq_iff,
}
use costanza.Json.{null, Fields, end, field, get_field}
use costanza.Ingest.{put, put_headers, is_archived, headers_subset}

get_field-put :
    (name k v : String) (fs : Fields)
    → (k == name) ≡ false
    → get_field name (put k v fs) ≡ get_field name fs
unfolding put
get_field-put name k v end apart = rw apart refl
get_field-put name k v (field j w fs) apart = elim (Bool-cases (j == k)) [
  | inl e ↦ ground (arith, eq_iff j k, eq_iff j name, eq_iff k name)
  | inr e ↦ rw (e, get_field-put name k v fs apart) refl
]

apart_from :
    (name k : String) → is_archived name ≡ false → is_archived k ≡ true → (k == name) ≡ false
apart_from name k hidden shown = elim (Bool-cases (k == name)) [
  | inl same ↦
      let h : is_archived k ≡ is_archived name = ap is_archived ((eq_iff k name).0 same) in cc
  | inr e ↦ e
]

put_headers-skips :
    (name : String)
    → is_archived name ≡ false
    → (headers : List (String × String)) (fs : Fields)
    → get_field name (put_headers headers fs) ≡ get_field name fs
unfolding put_headers
put_headers-skips name hidden [] fs = refl
put_headers-skips name hidden ((k, v) ∷ headers) fs = elim (Bool-cases (is_archived k)) [
  | inl e ↦
      rw (e, put_headers-skips name hidden headers (put k v fs))
        (get_field-put name k v fs (apart_from name k hidden e))
  | inr e ↦ rw (e, put_headers-skips name hidden headers fs) refl
]

hidden_token : is_archived "x-webhook-token" ≡ false
unfolding is_archived any
hidden_token = refl

hidden_bearer : is_archived "authorization" ≡ false
unfolding is_archived any
hidden_bearer = refl

-- Whatever the headers of a webhook are, the two that may hold its secret, X-Webhook-Token and
-- Authorization, in the lower case in which the HTTP library gives them, are not archived.
pub headers_subset_secret :
    (headers : List (String × String))
    → (get_field "x-webhook-token" (headers_subset headers) ≡ null)
      × (get_field "authorization" (headers_subset headers) ≡ null)
unfolding headers_subset
headers_subset_secret headers =
    (put_headers-skips _ hidden_token headers end, put_headers-skips _ hidden_bearer headers end)
