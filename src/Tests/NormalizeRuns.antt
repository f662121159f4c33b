-- ===== src/Tests/NormalizeRuns.antt =====
-- Tests of the Seerr normalizer.
use costanza.Prelude.{String, ◌≡◌, refl, none, List, [], ◌∷◌, true, false, map, join_colon}
use costanza.Json.{Json, obj, str, bool, Fields, end, field, append_fields}
use costanza.Result.{Result, ok, raised}
use costanza.Schemas.{CanonicalEvent}
use costanza.Stdlib.{py_str, sha16}
use costanza.Normalize.Common.{Text}
use costanza.Normalize.Seerr.{normalize_seerr}
use costanza.Tests.Samples.{lib}

-- Texts without spaces around them and without a year.
abbrev plain : Text
plain = record { strip = λ s. s; title_year = λ s. none }

abbrev keys : Result (List CanonicalEvent) → Result (List (String × Fields))
keys (ok events) = ok (map (λ (e : CanonicalEvent). (e.source_event_key, e.attrs)) events)
keys (raised exc) = raised exc

abbrev payload : String → Fields → Json
payload notification_type media = obj (
    field "notification_type" (str notification_type) (
      field "subject" (str "The Quiet Place") (
        field "media" (obj media)
          (field "request" (obj (field "request_id" (str "RQ-1001") end)) end))))

available_key :
    keys (
      normalize_seerr lib plain "id-0" "seerr"
        (payload "MEDIA_AVAILABLE" (field "status" (str "AVAILABLE") end)))
    ≡ ok (
        (
          "seerr:request.available:RQ-1001:AVAILABLE",
          field "request_id" (str "RQ-1001") (field "partial" (bool false) end),
        )
        ∷ [])
unfolding normalize_seerr join_colon py_str append_fields sha16
available_key = refl

auto_approved_key :
    keys (normalize_seerr lib plain "id-0" "seerr" (payload "MEDIA_AUTO_APPROVED" end))
    ≡ ok (
        (
          "seerr:request.approved:RQ-1001",
          field "request_id" (str "RQ-1001") (field "auto_approved" (bool true) end),
        )
        ∷ [])
unfolding normalize_seerr join_colon py_str append_fields sha16
auto_approved_key = refl

unknown_key :
    keys (normalize_seerr lib plain "id-0" "seerr" (obj end))
    ≡ ok (("seerr:unknown:none:0123456789abcdef", field "payload_kind" (str "none") end) ∷ [])
unfolding normalize_seerr join_colon py_str append_fields sha16
unknown_key = refl
