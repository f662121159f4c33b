-- ===== src/Jobs/Reconcile/Twins.antt =====
-- The fuzzy dedupe of src/costanza/jobs/reconcile.py: a history record against a webhook event with
-- the same download under another key.
use Prim.Native.Char.{Char, code}
use Prim.Native.String
use Prim.Native.String.append
use costanza.Prelude.{
  ℕ, String, ◌≡◌, refl, Bool, true, false, Option, [], ◌∷◌, any, any-weaken, eqb, arith, eq_iff,
  ◌==◌, join_colon, format, Bool-cases, inl, inr,
}
use costanza.Json.{str}
use costanza.Result.{ok}
use costanza.Stdlib.{Stdlib}
use costanza.Schemas.{Time, CanonicalEvent, type_name, RenderedMessage}
use costanza.Config.{RoutingConfig}
use costanza.Store.{Db, EventRow}
use costanza.Store.Events.{is_event}
use costanza.Store.Like.{like, event_key_like}
use costanza.Jobs.Reconcile.Arr.{segment, has_twin, recover_unknown}

-- `%` may stand for nothing.
like_nothing :
    (c : Char) (p s : String)
    → eqb (code c) b'%' ≡ true
    → like p s ≡ true
    → like (String.◌∷◌ c p) s ≡ true
unfolding like
like_nothing c p String.[] percent h = ground arith
like_nothing c p (String.◌∷◌ d t) percent h = ground arith

-- `%` stands for any text.
like_any :
    (c : Char) (p t s : String)
    → eqb (code c) b'%' ≡ true
    → like p s ≡ true
    → like (String.◌∷◌ c p) (String.◌++◌ t s) ≡ true
unfolding like
like_any c p String.[] s percent h = rw (append.nil s) (like_nothing c p s percent h)
like_any c p (String.◌∷◌ d t) s percent h =
    let ih = like_any c p t s percent h in rw (append.cons d t s) (ground arith)

-- A text is like itself, with what follows it.
like_prefix : (s p t : String) → like p t ≡ true → like (String.◌++◌ s p) (String.◌++◌ s t) ≡ true
unfolding like
like_prefix String.[] p t h = rw (append.nil p, append.nil t) h
like_prefix (String.◌∷◌ c s) p t h =
    let ih = like_prefix s p t h in
    rw (append.cons c s p, append.cons c s t)
      (elim (Bool-cases (eqb (code c) b'%')) [
        | inl percent ↦
            let deeper = like_nothing c (String.◌++◌ s p) (String.◌++◌ s t) percent ih in
            ground arith
        | inr other ↦ ground arith
      ])

-- One part of a key, and its colon.
part_matches :
    (s p t : String)
    → like p t ≡ true
    → like (String.◌++◌ s (String.◌++◌ ":" p)) (String.◌++◌ s (String.◌++◌ ":" t)) ≡ true
part_matches s p t h = like_prefix s (String.◌++◌ ":" p) (String.◌++◌ ":" t) (like_prefix ":" p t h)

module _ (source type media download tail : String) where
  abbrev pub twin_key : String
  twin_key = join_colon (source ∷ type ∷ media ∷ format (tail ∷ download ∷ []) ∷ [])

  pattern_matches :
      like (join_colon (source ∷ type ∷ media ∷ format ("%" ∷ download ∷ []) ∷ [])) twin_key ≡ true
  unfolding join_colon format like
  pattern_matches =
      let d = String.◌++◌ download "" in
      let same : like d d ≡ true = like_prefix download "" "" refl in
      let ends : like (String.◌++◌ "%" d) (String.◌++◌ tail d) ≡ true =
        rw (append.cons "%" "" d, append.nil d) (like_any "%" d tail d refl same) in
      let p = String.◌++◌ "%" d in
      let t = String.◌++◌ tail d in
      let p' = String.◌++◌ media (String.◌++◌ ":" p) in
      let t' = String.◌++◌ media (String.◌++◌ ":" t) in
      let p'' = String.◌++◌ type (String.◌++◌ ":" p') in
      let t'' = String.◌++◌ type (String.◌++◌ ":" t') in
      part_matches source p'' t'' (part_matches type p' t' (part_matches media p t ends))

matches_twin :
    (pattern key : String) (row : EventRow)
    → like pattern key ≡ true
    → is_event key row ≡ true
    → like pattern row.source_event_key ≡ true
matches_twin pattern key row h same = rw ((eq_iff row.source_event_key key).0 same) h

-- A history record whose own key is not stored recovers nothing and changes nothing, where an event
-- of the same source, type and media key is stored whose key ends in the record's download id,
-- whatever stands between (a webhook that grouped its episodes otherwise).
pub recover_unknown-twin :
    (lib : Stdlib) (hash : RenderedMessage → String) (routing : RoutingConfig) (kill : Option Bool)
    (now : Time) (source download tail : String) (window_start : Time) (event : CanonicalEvent)
    (recovered : ℕ) (db : Db)
    → (download == "") ≡ false
    → any
        (is_event
          (twin_key source (type_name event.type) (segment 2 event.source_event_key) download tail))
        db.events
      ≡ true
    → recover_unknown lib hash routing kill now source window_start
        (str download)
        event
        recovered
        db
      ≡ (ok recovered, db)
unfolding recover_unknown has_twin event_key_like
recover_unknown-twin lib hash routing kill now source download tail window_start event recovered db
      named stored =
    let type = type_name event.type in
    let media = segment 2 event.source_event_key in
    let pattern = join_colon (source ∷ type ∷ media ∷ format ("%" ∷ download ∷ []) ∷ []) in
    let key = twin_key source type media download tail in
    let found : any (λ (row : EventRow). like pattern row.source_event_key) db.events ≡ true =
      any-weaken (is_event key) (λ (row : EventRow). like pattern row.source_event_key) db.events
        (λ row same.
          matches_twin pattern key row (pattern_matches source type media download tail) same)
        stored in
    rw (named, found) refl
