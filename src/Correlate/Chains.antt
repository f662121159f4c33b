-- ===== src/Correlate/Chains.antt =====
-- The request chains of src/costanza/correlate/engine.py: a chain moves forward only, and a closed
-- chain is final.
use costanza.Prelude.{
  ◌≤◌, String, ◌≡◌, refl, ◌∙◌, Bool, true, false, not, ◌&&◌, ◌||◌, Option, none, some, List, [],
  ◌∷◌, ◌++◌, arith, ◌⊎◌, inl, inr, Bool-cases, find?, any, is_some, ltb, ◌==◌, find?-update_ne,
  find?-update_self, find?-append_row, eq_iff, All, All-find?, All-filter, All-sort_by_desc,
  UniqueIds, UniqueIds-found,
}
use costanza.Result.{continue-state}
use costanza.Schemas.{Time, CanonicalEvent}
use costanza.Stdlib.{Stdlib}
use costanza.Store.{Db, ChainRow, ChainState, refers_to}
use costanza.Store.Media.{or_try}
use costanza.Store.Events.{has_media_id}
use costanza.Store.Chains.{
  is_chain, has_request, is_open_for, first_of_list, chain_by_request_id, open_chain_for_media,
  create_chain, update_chain, set_chain, request_taken,
}
use costanza.Json.{get_field, truthy}
use costanza.Correlate.Rule.{apply-rule}
use costanza.Correlate.Frames.{
  find_or_create_media-request_chains, observe_identity-request_chains, insert_event-request_chains,
}
use costanza.Correlate.{
  Move, rank, closing_time, only_if_missing, find_chain, chain_for_request, chain_for_media,
  advance_or_open, advance_found, open_chain, advance_chain, apply, move_of,
}

-- `r'` is a later version of the chain `r`.
pub record Advances (r : ChainRow) (r' : ChainRow) : Type 0 where
  pub forward : rank r.state ≤ rank r'.state
  pub final : is_some r.closed_at ≡ true → r' ≡ r
  pub request : r'.seerr_request_id ≡ r.seerr_request_id
  pub opened : r'.opened_at ≡ r.opened_at
  pub media : (m : String) → r.media_id ≡ some m → r'.media_id ≡ some m
  pub requester : (u : String) → r.requested_by ≡ some u → r'.requested_by ≡ some u

Advances-refl : (r : ChainRow) → Advances r r
Advances-refl r = record {
  forward = omega arith;
  final = λ h. refl;
  request = refl;
  opened = refl;
  media = λ m h. h;
  requester = λ u h. h;
}

abbrev pub chain_id : ChainRow → String
chain_id row = row.id

abbrev pub chain_at : String → List ChainRow → Option ChainRow
chain_at i rows = find? (is_chain i) rows

-- The chain `r` is still there, as it was or advanced.
abbrev pub Kept : ChainRow → List ChainRow → Type 0
Kept r rows = (r' : ChainRow) × (chain_at r.id rows ≡ some r') × Advances r r'

kept : (r : ChainRow) (rows : List ChainRow) → chain_at r.id rows ≡ some r → Kept r rows
kept r rows h = (r, h, Advances-refl r)

-- The update that a move makes to the chain that it was found for.
set_chain-Advances :
    (move : Move) (chain : ChainRow)
    → is_some chain.closed_at ≡ false
    → ltb (rank move.state) (rank chain.state) ≡ false
    → Advances chain (
        set_chain
          (some move.state)
          (closing_time move)
          (only_if_missing chain.media_id move.media_id)
          (only_if_missing chain.requested_by move.user_id)
          chain)
unfolding set_chain
set_chain-Advances move chain is_open higher = record {
  forward = ground arith;
  final = λ h. cc;
  request = refl;
  opened = refl;
  media = λ m h. ground arith;
  requester = λ u h. ground arith;
}

ids_apart :
    (i j : String) (row : ChainRow)
    → (j == i) ≡ false
    → is_chain i row ≡ true
    → is_chain j row ≡ false
ids_apart i j row h t = ground (arith, eq_iff row.id i, eq_iff row.id j, eq_iff j i)

-- An update of the chain `chain`, where the row is the one that its id finds.
update_chain-Kept :
    (state : Option ChainState) (closed_at : Option Time) (media_id requested_by : Option String)
    (chain r : ChainRow) (db : Db)
    → chain_at chain.id db.request_chains ≡ some chain
    → Advances chain (set_chain state closed_at media_id requested_by chain)
    → chain_at r.id db.request_chains ≡ some r
    → Kept r (update_chain chain.id state closed_at media_id requested_by db).1.request_chains
unfolding update_chain
update_chain-Kept state closed_at media_id requested_by chain r db found moved at =
    elim (Bool-cases (
      any (is_chain chain.id) db.request_chains
      && not (refers_to has_media_id media_id db.media))) [
        | inl e ↦ rw e (kept r db.request_chains at)
        | inr e ↦ rw e (elim (Bool-cases (chain.id == r.id)) [
          | inl same ↦
              let ids : chain.id ≡ r.id = (eq_iff chain.id r.id).0 same in
              let rows : chain ≡ r = ground arith in
              rw (← rows) (
                set_chain state closed_at media_id requested_by chain,
                find?-update_self _ _ db.request_chains chain (λ x. refl) found,
                moved,
              )
          | inr other ↦ kept r _ (
              find?-update_ne _ _ _ db.request_chains (λ x. refl)
                (λ x. ids_apart r.id chain.id x other)
              ∙ at)
        ])
      ]

advance_found-Kept :
    (move : Move) (chain r : ChainRow) (db : Db)
    → chain_at chain.id db.request_chains ≡ some chain
    → chain_at r.id db.request_chains ≡ some r
    → Kept r (advance_found move chain db).1.request_chains
unfolding advance_found
advance_found-Kept move chain r db found at = elim (Bool-cases (is_some chain.closed_at)) [
  | inl e ↦ rw e (kept r db.request_chains at)
  | inr is_open ↦ rw is_open (elim (Bool-cases (ltb (rank move.state) (rank chain.state))) [
    | inl e ↦ rw e (kept r db.request_chains at)
    | inr higher ↦ rw higher (
        update_chain-Kept (some move.state) (closing_time move)
          (only_if_missing chain.media_id move.media_id)
          (only_if_missing chain.requested_by move.user_id) chain r db found
          (set_chain-Advances move chain is_open higher) at)
  ])
]

chain_at-append :
    (i : String) (rows : List ChainRow) (x r : ChainRow)
    → chain_at i rows ≡ some r
    → chain_at i (rows ++ x ∷ []) ≡ some r
chain_at-append i rows x r h = rw (find?-append_row (is_chain i) rows x, h)

create_chain-Kept :
    (media_id request_id user_id : Option String) (state : ChainState) (opened : Time)
    (closed : Option Time) (r : ChainRow) (db : Db)
    → chain_at r.id db.request_chains ≡ some r
    → Kept r (create_chain media_id request_id user_id state opened closed db).1.request_chains
unfolding create_chain
create_chain-Kept media_id request_id user_id state opened closed r db at =
    elim (Bool-cases (
      any (is_chain (db.ids db.drawn)) db.request_chains
      || request_taken request_id db.request_chains
      || not (refers_to has_media_id media_id db.media))) [
        | inl e ↦ rw e (kept r db.request_chains at)
        | inr e ↦ rw e (kept r _ (chain_at-append r.id db.request_chains _ r at))
      ]

open_chain-Kept :
    (move : Move) (r : ChainRow) (db : Db)
    → chain_at r.id db.request_chains ≡ some r
    → Kept r (open_chain move db).1.request_chains
unfolding open_chain
open_chain-Kept move r db at =
    continue-state (λ (s : Db). Kept r s.request_chains) (λ (s : Db). Kept r s.request_chains) _
      (create_chain move.media_id move.request_id move.user_id move.state move.occurred
        (closing_time move) db)
      (create_chain-Kept move.media_id move.request_id move.user_id move.state move.occurred
        (closing_time move) r db at)
      (λ s h. h) (λ a s h. h)

first-All {ℓ κ} :
    {A : Type ℓ} (P : A → Type κ) (xs : List A) (a : A) → All P xs → first_of_list xs ≡ some a → P a
first-All P [] a all h = cc
first-All P (x ∷ xs) a all h = let same : x ≡ a = ground arith in rw (← same) all.0

abbrev FoundById : ChainRow → List ChainRow → Type 0
FoundById chain rows = chain_at chain.id rows ≡ some chain

chain_for_request-found :
    (db : Db) (has_request : Bool) (request_id : Option String) (chain : ChainRow)
    → UniqueIds chain_id db.request_chains
    → chain_for_request db has_request request_id ≡ some chain
    → FoundById chain db.request_chains
unfolding chain_by_request_id
chain_for_request-found db false request_id chain unique h = cc
chain_for_request-found db true none chain unique h = cc
chain_for_request-found db true (some request_id) chain unique h =
    All-find? (λ c. FoundById c db.request_chains) (has_request request_id) db.request_chains chain
      (UniqueIds-found chain_id db.request_chains unique) h

chain_for_media-found :
    (db : Db) (media_id : Option String) (chain : ChainRow)
    → UniqueIds chain_id db.request_chains
    → chain_for_media db media_id ≡ some chain
    → FoundById chain db.request_chains
unfolding open_chain_for_media
chain_for_media-found db none chain unique h = cc
chain_for_media-found db (some media_id) chain unique h = elim (Bool-cases (media_id == "")) [
  | inl e ↦ absurd (ground arith)
  | inr e ↦
      first-All (λ c. FoundById c db.request_chains) _ chain
        (All-sort_by_desc _ (λ (row : ChainRow). row.opened_at) _
          (All-filter _ (is_open_for media_id) db.request_chains
            (UniqueIds-found chain_id db.request_chains unique)))
        (rw e at h)
]

or_try-cases {ℓ} :
    {A : Type ℓ} (first second : Option A) (a : A)
    → or_try first second ≡ some a
    → (first ≡ some a) ⊎ (second ≡ some a)
or_try-cases none second a h = inr h
or_try-cases (some x) second a h = inl h

-- The chain that a move is for is a row of the table, found by its own id.
find_chain-found :
    (db : Db) (has_request : Bool) (move : Move) (chain : ChainRow)
    → UniqueIds chain_id db.request_chains
    → find_chain db has_request move ≡ some chain
    → FoundById chain db.request_chains
unfolding find_chain
find_chain-found db has_request move chain unique h = elim (or_try-cases _ _ chain h) [
  | inl e ↦ chain_for_request-found db has_request move.request_id chain unique e
  | inr e ↦ chain_for_media-found db move.media_id chain unique e
]

advance_or_open-Kept :
    (move : Move) (found : Option ChainRow) (r : ChainRow) (db : Db)
    → ((chain : ChainRow) → found ≡ some chain → FoundById chain db.request_chains)
    → chain_at r.id db.request_chains ≡ some r
    → Kept r (advance_or_open move found db).1.request_chains
advance_or_open-Kept move none r db found at = open_chain-Kept move r db at
advance_or_open-Kept move (some chain) r db found at =
    advance_found-Kept move chain r db (found chain refl) at

module _ (lib : Stdlib) (event : CanonicalEvent) (now : Time) (r : ChainRow) (db : Db) where
  advance_chain-Kept :
      (e : CanonicalEvent) (state : ChainState) (s : Db)
      → UniqueIds chain_id s.request_chains
      → chain_at r.id s.request_chains ≡ some r
      → Kept r (advance_chain lib e state now s).1.request_chains
  unfolding advance_chain
  advance_chain-Kept e state s unique at =
      let move = move_of lib e state now in
      advance_or_open-Kept move _ r s
        (λ chain h.
          find_chain-found s (truthy (get_field "request_id" e.attrs)) move chain unique h)
        at

  -- Whatever the event, and whether it raises or not, `apply` keeps every chain of a table with
  -- unique ids: its state's rank does not fall, a closed chain is not changed at all, the request
  -- id and the opening time stay, and a media id or requester that is set stays.
  pub apply-Kept :
      UniqueIds chain_id db.request_chains
      → chain_at r.id db.request_chains ≡ some r
      → Kept r (apply lib event now db).1.request_chains
  apply-Kept unique at =
      apply-rule lib event now (λ (s : Db). s.request_chains ≡ db.request_chains)
        (λ (s : Db). s.request_chains ≡ db.request_chains) (λ (s : Db). Kept r s.request_chains)
        (record {
          media = λ ref s h. find_or_create_media-request_chains ref now s ∙ h;
          user = λ p x s h. observe_identity-request_chains p x s ∙ h;
          insert = λ e source_id s same h. insert_event-request_chains e source_id now s ∙ h;
          advance = λ e state s h. advance_chain-Kept e state s (rw h unique) (rw h at);
          refused = λ s h. rw h (kept r db.request_chains at);
          stored = λ s h. rw h (kept r db.request_chains at);
        })
        db refl
