-- ===== src/Program/Schema/Tables.antt =====
-- What adding and changing rows does to the constraints of one table.
use costanza.Prelude.{
  ℕ, ◌≤◌, String, ◌≡◌, ap, refl, ◌∙◌, Bool, true, false, Option, none, some, List, [], ◌∷◌, ◌++◌,
  any, count, update_where, All, arith, eq_iff, ◌==◌, count-append_row, count-update_where,
  any-append_row, count-eq-zero_of_not-any, count-filter-le, All-weaken, Bool-cases, inl, inr,
}
use costanza.Schemas.{Time, IdentityProvider}
use costanza.Store.{Db, RawEvent, OutboxRow, IdentityRow, ChainRow, NotificationRow}
use costanza.Store.Outbox.{is_raw, is_outbox, prune_at, redact}
use costanza.Store.Outbox.Prune.{prune_at-references}
use costanza.Store.Users.{is_identity, provider_eq}
use costanza.Store.Chains.{is_chain, column_is, has_request, request_taken}
use costanza.Store.Notifications.{is_notification, is_for}
use costanza.Program.Schema.{HasRaw, IsQueue, IsChains, IsLedger}

-- A row that is new to a test, or an update that the test does not see.
pub count-add {ℓ} :
    {A : Type ℓ} (p : A → Bool) (xs : List A) (x : A)
    → (p x ≡ true → any p xs ≡ false)
    → count p xs ≤ 1
    → count p (xs ++ x ∷ []) ≤ 1
count-add p xs x fresh once =
    ground (arith, count-append_row p xs x, count-eq-zero_of_not-any p xs, fresh)

pub count-change {ℓ} :
    {A : Type ℓ} (p q : A → Bool) (f : A → A) (xs : List A)
    → ((x : A) → p (f x) ≡ p x)
    → count p xs ≤ 1
    → count p (update_where q f xs) ≤ 1
count-change p q f xs keep once = rw (count-update_where p q f xs keep) once

pub All-add {ℓ κ} :
    {A : Type ℓ} (P : A → Type κ) (xs : List A) (x : A) → All P xs → P x → All P (xs ++ x ∷ [])
All-add P [] x h k = (k, tt)
All-add P (y ∷ xs) x h k = (h.0, All-add P xs x h.1 k)

All-change {ℓ κ} :
    {A : Type ℓ} (P : A → Type κ) (q : A → Bool) (f : A → A) (xs : List A)
    → ((x : A) → P x → P (f x))
    → All P xs
    → All P (update_where q f xs)
unfolding update_where
All-change P q f [] keep h = tt
All-change P q f (x ∷ xs) keep h = elim (Bool-cases (q x)) [
  | inl e ↦ (rw e (keep x h.0), All-change P q f xs keep h.1)
  | inr e ↦ (rw e h.0, All-change P q f xs keep h.1)
]

-- The key of a row that is added is the key looked for.
pub text_key {ℓ} :
    {A : Type ℓ} (key : A → String) (id : String) (xs : List A) (x : A)
    → any (λ y. key y == key x) xs ≡ false
    → (key x == id) ≡ true
    → any (λ y. key y == id) xs ≡ false
text_key key id xs x fresh same = rw (← (eq_iff (key x) id).0 same) fresh

provider_eq_holds : (a b : IdentityProvider) → provider_eq a b ≡ true → a ≡ b
provider_eq_holds IdentityProvider.seerr IdentityProvider.seerr h = refl
provider_eq_holds IdentityProvider.seerr IdentityProvider.plex h = cc
provider_eq_holds IdentityProvider.seerr IdentityProvider.tautulli h = cc
provider_eq_holds IdentityProvider.seerr IdentityProvider.discord h = cc
provider_eq_holds IdentityProvider.plex IdentityProvider.seerr h = cc
provider_eq_holds IdentityProvider.plex IdentityProvider.plex h = refl
provider_eq_holds IdentityProvider.plex IdentityProvider.tautulli h = cc
provider_eq_holds IdentityProvider.plex IdentityProvider.discord h = cc
provider_eq_holds IdentityProvider.tautulli IdentityProvider.seerr h = cc
provider_eq_holds IdentityProvider.tautulli IdentityProvider.plex h = cc
provider_eq_holds IdentityProvider.tautulli IdentityProvider.tautulli h = refl
provider_eq_holds IdentityProvider.tautulli IdentityProvider.discord h = cc
provider_eq_holds IdentityProvider.discord IdentityProvider.seerr h = cc
provider_eq_holds IdentityProvider.discord IdentityProvider.plex h = cc
provider_eq_holds IdentityProvider.discord IdentityProvider.tautulli h = cc
provider_eq_holds IdentityProvider.discord IdentityProvider.discord h = refl

pub identity_free :
    (p : IdentityProvider) (x : String) (row : IdentityRow) (rows : List IdentityRow)
    → is_identity p x row ≡ true
    → any (is_identity row.provider row.external_id) rows ≡ false
    → any (is_identity p x) rows ≡ false
identity_free p x row rows same fresh =
    let key : (provider_eq row.provider p ≡ true) × ((row.external_id == x) ≡ true) =
      (ground arith, ground arith) in
    rw (← provider_eq_holds row.provider p key.0, ← (eq_iff row.external_id x).0 key.1) fresh

pub add_raw-IsQueue :
    (raws : List RawEvent) (rows : List OutboxRow) (row : RawEvent)
    → any (is_raw row.id) raws ≡ false
    → IsQueue raws rows
    → IsQueue (raws ++ row ∷ []) rows
add_raw-IsQueue raws rows row fresh w = record {
  raw_ids = λ id.
      count-add (is_raw id) raws row
        (λ same. text_key (λ (r : RawEvent). r.id) id raws row fresh same) (w.raw_ids id);
  ids = w.ids;
  references =
      All-weaken (HasRaw raws) (HasRaw (raws ++ row ∷ [])) rows
        (λ r h. rw (any-append_row (is_raw r.raw_event_id) raws row, h)) w.references;
}

pub add_outbox-IsQueue :
    (raws : List RawEvent) (rows : List OutboxRow) (row : OutboxRow)
    → any (is_outbox row.id) rows ≡ false
    → any (is_raw row.raw_event_id) raws ≡ true
    → IsQueue raws rows
    → IsQueue raws (rows ++ row ∷ [])
add_outbox-IsQueue raws rows row fresh known w = record {
  raw_ids = w.raw_ids;
  ids = λ id.
      count-add (is_outbox id) rows row
        (λ same. text_key (λ (r : OutboxRow). r.id) id rows row fresh same) (w.ids id);
  references = All-add (HasRaw raws) rows row w.references known;
}

pub change_outbox-IsQueue :
    (raws : List RawEvent) (rows : List OutboxRow) (i : String) (f : OutboxRow → OutboxRow)
    → ((x : OutboxRow) → (f x).id ≡ x.id)
    → ((x : OutboxRow) → (f x).raw_event_id ≡ x.raw_event_id)
    → IsQueue raws rows
    → IsQueue raws (update_where (is_outbox i) f rows)
change_outbox-IsQueue raws rows i f same_id same_raw w = record {
  raw_ids = w.raw_ids;
  ids = λ id.
      count-change (is_outbox id) (is_outbox i) f rows (λ x. ap (λ j. j == id) (same_id x))
        (w.ids id);
  references =
      All-change (HasRaw raws) (is_outbox i) f rows
        (λ x h. ap (λ j. any (is_raw j) raws) (same_raw x) ∙ h) w.references;
}

le_one_of_le : {a b : ℕ} → a ≤ b → b ≤ 1 → a ≤ 1
le_one_of_le h k = omega arith

pub prune_at-IsQueue :
    (cutoff : Time) (db : Db)
    → IsQueue db.raw_events db.outbox
    → IsQueue (prune_at cutoff db).1.raw_events (prune_at cutoff db).1.outbox
unfolding prune_at
prune_at-IsQueue cutoff db w = record {
  raw_ids = λ id.
      count-change (is_raw id) _ redact _ (λ x. refl)
        (le_one_of_le (count-filter-le (is_raw id) _ db.raw_events) (w.raw_ids id));
  ids = λ id. le_one_of_le (count-filter-le (is_outbox id) _ db.outbox) (w.ids id);
  references = prune_at-references cutoff db w.references;
}

request_free :
    (id : String) (request : Option String) (rows : List ChainRow)
    → column_is id request ≡ true
    → request_taken request rows ≡ false
    → any (has_request id) rows ≡ false
request_free id none rows same free = cc
request_free id (some request) rows same free = rw (← (eq_iff request id).0 same) free

pub add_chain-IsChains :
    (rows : List ChainRow) (row : ChainRow)
    → any (is_chain row.id) rows ≡ false
    → request_taken row.seerr_request_id rows ≡ false
    → IsChains rows
    → IsChains (rows ++ row ∷ [])
add_chain-IsChains rows row fresh free w = record {
  ids = λ id.
      count-add (is_chain id) rows row
        (λ same. text_key (λ (r : ChainRow). r.id) id rows row fresh same) (w.ids id);
  requests = λ id.
      count-add (has_request id) rows row
        (λ same. request_free id row.seerr_request_id rows same free) (w.requests id);
}

pub change_chain-IsChains :
    (rows : List ChainRow) (i : String) (f : ChainRow → ChainRow)
    → ((x : ChainRow) → (f x).id ≡ x.id)
    → ((x : ChainRow) → (f x).seerr_request_id ≡ x.seerr_request_id)
    → IsChains rows
    → IsChains (update_where (is_chain i) f rows)
change_chain-IsChains rows i f same_id same_request w = record {
  ids = λ id.
      count-change (is_chain id) (is_chain i) f rows (λ x. ap (λ j. j == id) (same_id x))
        (w.ids id);
  requests = λ id.
      count-change (has_request id) (is_chain i) f rows (λ x. ap (column_is id) (same_request x))
        (w.requests id);
}

pub add_notification-IsLedger :
    (rows : List NotificationRow) (row : NotificationRow)
    → any (is_notification row.id) rows ≡ false
    → any (is_for row.event_key row.channel) rows ≡ false
    → IsLedger rows
    → IsLedger (rows ++ row ∷ [])
add_notification-IsLedger rows row fresh free w = record {
  ids = λ id.
      count-add (is_notification id) rows row
        (λ same. text_key (λ (r : NotificationRow). r.id) id rows row fresh same) (w.ids id);
  keys = λ key channel.
      count-add (is_for key channel) rows row
        (λ same. ground (arith, eq_iff row.event_key key, eq_iff row.channel channel))
        (w.keys key channel);
}

pub change_notification-IsLedger :
    (rows : List NotificationRow) (i : String) (f : NotificationRow → NotificationRow)
    → ((x : NotificationRow) → (f x).id ≡ x.id)
    → ((x : NotificationRow) → (f x).event_key ≡ x.event_key)
    → ((x : NotificationRow) → (f x).channel ≡ x.channel)
    → IsLedger rows
    → IsLedger (update_where (is_notification i) f rows)
change_notification-IsLedger rows i f same_id same_key same_channel w = record {
  ids = λ id.
      count-change (is_notification id) (is_notification i) f rows
        (λ x. ap (λ j. j == id) (same_id x)) (w.ids id);
  keys = λ key channel.
      count-change (is_for key channel) (is_notification i) f rows
        (λ x. rw (same_key x, same_channel x)) (w.keys key channel);
}
