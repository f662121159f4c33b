-- ===== src/Tests/IngestRuns.antt =====
-- Tests of the webhook handler.
use costanza.Prelude.{
  ℕ, String, ◌≡◌, refl, true, Option, none, some, List, [], ◌∷◌, any, find?, length, eqb,
  if◌then◌else◌,
}
use costanza.Json.{null, obj, end, get_field}
use costanza.Config.{SourceConfig}
use costanza.Store.{Db}
use costanza.Store.Outbox.{archive_raw, enqueue_outbox}
use costanza.Store.Events.{source_by_name}
use costanza.Ingest.{
  headers_subset, Request, Wire, Parsed, Response, receive_webhook, get, authenticate,
  presented_token, over,
}
use costanza.Ingest.Webhook.{
  Archived, Authentic, receive_webhook-Archived, accepted-Authentic, rejected_unchanged,
}
use costanza.Ingest.Headers.{headers_subset_secret}
use costanza.Tests.Samples.{db, routing, seerr_source}

abbrev seerr : SourceConfig
seerr = record { name = "seerr"; kind = "seerr"; url = none; enabled = true }

abbrev secret : SourceConfig → Option String
secret source = some "hunter2"

-- A wire for ASCII texts, on which `json.loads` takes any body that is not empty.
abbrev loads : List ℕ → Parsed
loads [] = Parsed.invalid (record { name = "JSONDecodeError"; message = "Expecting value" })
loads (b ∷ bs) = Parsed.valid

abbrev wire : Wire
wire = record {
  loads = loads;
  decode = λ body. if eqb (length body) 0 then "" else "{}";
  dumps = λ v. elim v [ obj end ↦ "{}" | _ ↦ "{\"content-length\": \"2\"}" ];
}

abbrev request : Request
request = record {
  declared_length = some 2;
  token_header = none;
  authorization = "Bearer hunter2";
  headers = ("content-length", "2") ∷ ("authorization", "Bearer hunter2") ∷ [];
  body = b'{' ∷ b'}' ∷ [];
}

abbrev stranger : Request
stranger = record request { authorization = "Bearer hunter3" }

abbrev fresh : Db
fresh = record db { raw_events = []; outbox = [] }

receive_webhook-Archived_example :
    Archived routing 1000 secret wire 300 "seerr" request fresh 1
      (receive_webhook routing 1000 secret wire 300 "seerr" request fresh)
unfolding get authenticate presented_token any over source_by_name find?
receive_webhook-Archived_example =
    receive_webhook-Archived routing 1000 secret wire 300 "seerr" request fresh seerr_source refl
      refl refl seerr refl refl refl refl refl

accepted-Authentic_example :
    (source : SourceConfig) × Authentic routing 1000 secret wire 300 "seerr" request fresh source
unfolding receive_webhook get authenticate presented_token source_by_name find? archive_raw any
    enqueue_outbox
accepted-Authentic_example =
    accepted-Authentic routing 1000 secret wire 300 "seerr" request fresh refl

rejected_unchanged_example :
    (receive_webhook routing 1000 secret wire 300 "seerr" stranger db).1 ≡ db
unfolding receive_webhook get authenticate presented_token
rejected_unchanged_example =
    rejected_unchanged routing 1000 secret wire 300 "seerr" stranger db Response.unauthorized
      (λ h. cc) refl

headers_subset_secret_example :
    (get_field "x-webhook-token" (headers_subset request.headers) ≡ null)
    × (get_field "authorization" (headers_subset request.headers) ≡ null)
headers_subset_secret_example = headers_subset_secret request.headers
