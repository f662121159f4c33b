-- ===== src/Ingest.antt =====
-- src/costanza/ingest: the webhook handler and the registry of sources. The HTTP library gives the
-- request; the environment gives the secrets; `Wire` has the calls of Python's library.
pub mod Webhook
pub mod Headers
use Prim.Native.Char.{code}
use Prim.Native.String
use costanza.Prelude.{
  ℕ, zero, suc, ◌+◌, String, Bool, true, false, not, ◌&&◌, ◌||◌, Option, none, some, List, [], ◌∷◌,
  ◌++◌, any, length, find?, ltb, leb, eqb, ◌==◌, if◌then◌else◌, format,
}
use costanza.Result.{Exception, Result, ok, raised, Exec, ◌>>=◌, pure, raise, describe}
use costanza.Json.{Json, str, obj, Fields, end, field}
use costanza.Schemas.{Time}
use costanza.Config.{SourceConfig, RoutingConfig}
use costanza.Store.{Db, SourceRow}
use costanza.Store.Events.{source_by_name}
use costanza.Store.Outbox.{archive_raw, enqueue_outbox}

-- A dict keyed by name: a later source of a name replaces an earlier one.
unfoldable pub last_named : String → List SourceConfig → Option SourceConfig
last_named name [] = none
last_named name (s ∷ sources) = elim (last_named name sources) [
  | some t ↦ some t
  | none ↦ if s.name == name then some s else none
]

abbrev pub if_enabled : Option SourceConfig → Option SourceConfig
if_enabled none = none
if_enabled (some s) = if s.enabled then some s else none

-- SourceRegistry.get
unfoldable pub get : RoutingConfig → String → Option SourceConfig
unfolding last_named
get routing name = if_enabled (last_named name routing.sources)

unfoldable pub is_ascii : String → Bool
is_ascii String.[] = true
is_ascii (String.◌∷◌ c s) = ltb (code c) 128 && is_ascii s

abbrev pub not_ascii : Exception
not_ascii = record {
  name = "TypeError";
  message = "comparing strings with non-ASCII characters is not supported";
}

-- hmac.compare_digest on texts, which it refuses where one is not ASCII.
unfoldable pub compare_digest : String → String → Result Bool
unfolding is_ascii
compare_digest a b = if is_ascii a && is_ascii b then ok (a == b) else raised not_ascii

-- SourceRegistry.authenticate, with the secret read from the environment.
unfoldable pub authenticate : Option String → Option String → Result Bool
unfolding compare_digest
authenticate none presented = ok false
authenticate (some secret) none = ok false
authenticate (some secret) (some presented) =
    if secret == "" || presented == "" then ok false else compare_digest secret presented

-- `headers` are the items of the request's headers. `declared_length` is the content-length header
-- where it is a decimal number. The body is bytes.
pub record Request : Type 0 where
  pub declared_length : Option ℕ
  pub token_header : Option String
  pub authorization : String
  pub headers : List (String × String)
  pub body : List ℕ

lower : ℕ → ℕ
lower c = if leb b'A' c && leb c b'Z' then c + 32 else c

-- The texts are the same with the letters of the second in lower case.
same_lower : String → String → Bool
unfolding lower
same_lower String.[] String.[] = true
same_lower String.[] (String.◌∷◌ d t) = false
same_lower (String.◌∷◌ c s) String.[] = false
same_lower (String.◌∷◌ c s) (String.◌∷◌ d t) = eqb (code c) (lower (code d)) && same_lower s t

-- _HEADERS_SUBSET
abbrev archived_headers : List String
archived_headers = "content-type" ∷ "user-agent" ∷ "x-request-id" ∷ "content-length" ∷ []

unfoldable pub is_archived : String → Bool
unfolding same_lower
is_archived name = any (λ h. same_lower h name) archived_headers

-- d[k] = v
unfoldable pub put : String → String → Fields → Fields
put k v end = field k (str v) end
put k v (field j w fs) =
    let rest = put k v fs in if j == k then field j (str v) fs else field j w rest

-- The archived headers, added to a dict in order.
unfoldable pub put_headers : List (String × String) → Fields → Fields
unfolding put is_archived
put_headers [] fs = fs
put_headers ((k, v) ∷ headers) fs =
    let rest = put_headers headers (put k v fs) in
    let skipped = put_headers headers fs in if is_archived k then rest else skipped

unfoldable pub headers_subset : List (String × String) → Fields
unfolding put_headers
headers_subset headers = put_headers headers end

-- The text behind a prefix, whose letters are compared in lower case.
after_prefix : List ℕ → String → Option String
unfolding lower
after_prefix [] s = some s
after_prefix (p ∷ ps) String.[] = none
after_prefix (p ∷ ps) (String.◌∷◌ c s) = if eqb p (lower (code c)) then after_prefix ps s else none

abbrev bearer : List ℕ
bearer = b'b' ∷ b'e' ∷ b'a' ∷ b'r' ∷ b'e' ∷ b'r' ∷ b' ' ∷ []

unfoldable pub bearer_token : String → Option String
unfolding after_prefix
bearer_token authorization = after_prefix bearer authorization

-- _presented_token: an empty header counts as none.
unfoldable pub presented_token : Request → Option String
unfolding bearer_token
presented_token request = elim request.token_header [
  | some token ↦ if token == "" then bearer_token request.authorization else some token
  | none ↦ bearer_token request.authorization
]

pub data Response : Type 0 where
  accepted not_found too_large unauthorized : Response

-- How `json.loads` ends: with a value, with a `ValueError`, or with another exception.
pub data Parsed : Type 0 where
  valid : Parsed
  invalid : Exception → Parsed
  crashed : Exception → Parsed

-- `json.loads` of the bytes of a body, `bytes.decode` with `errors="replace"`, and `json.dumps`.
pub record Wire : Type 0 where
  pub loads : List ℕ → Parsed
  pub decode : List ℕ → String
  pub dumps : Json → String

abbrev pub no_source_row : Exception
no_source_row = record { name = "TypeError"; message = "'NoneType' object is not subscriptable" }

unfoldable pub over : ℕ → Option ℕ → Bool
over limit none = false
over limit (some n) = ltb limit n

-- The raw event was archived.
unfoldable pub enqueue_parsed : Time → String → Parsed → Exec Db Response
enqueue_parsed now raw_id valid = do _ ← enqueue_outbox raw_id false none now; pure accepted
enqueue_parsed now raw_id (invalid exc) = do
  _ ← enqueue_outbox raw_id true (some (format ("invalid_json: " ∷ exc.message ∷ []))) now
  pure accepted
enqueue_parsed now raw_id (crashed exc) = raise exc

-- Authenticated and small enough: archive, then queue.
unfoldable pub accept : Wire → Time → Request → Option SourceRow → Exec Db Response
unfolding enqueue_parsed headers_subset
accept wire now request none = raise no_source_row
accept wire now request (some row) = do
  raw_id ←
      archive_raw row.id (wire.dumps (obj (headers_subset request.headers)))
        (wire.decode request.body) now
  enqueue_parsed now raw_id (wire.loads request.body)

module _ (routing : RoutingConfig) (body_max_bytes : ℕ) (secret : SourceConfig → Option String)
    (wire : Wire) where
  unfoldable pub authenticated : Time → String → Request → Result Bool → Exec Db Response
  unfolding accept
  authenticated now name request (raised exc) db = (raised exc, db)
  authenticated now name request (ok false) db = (ok unauthorized, db)
  authenticated now name request (ok true) db =
      if ltb body_max_bytes (length request.body)
      then (ok too_large, db)
      else accept wire now request (source_by_name db name) db

  unfoldable pub receive_from : Time → String → Request → Option SourceConfig → Exec Db Response
  unfolding authenticated over
  receive_from now name request none db = (ok not_found, db)
  receive_from now name request (some source) db =
      if over body_max_bytes request.declared_length
      then (ok too_large, db)
      else authenticated now name request (authenticate (secret source) (presented_token request))
          db

  -- The handler of POST /webhooks/{source_name}.
  unfoldable pub receive_webhook : Time → String → Request → Exec Db Response
  unfolding receive_from
  receive_webhook now name request = receive_from now name request (get routing name)
