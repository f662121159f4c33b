-- ===== src/Clients/Arr.antt =====
-- The history of src/costanza/clients/arr.py against a service that cuts one list into pages.
use costanza.Prelude.{
  ℕ, zero, suc, ◌+◌, ◌*◌, ◌≤◌, String, ◌≡◌, refl, sym, ap, ◌∙◌, Bool, true, false, Option, List, [],
  ◌∷◌, ◌++◌, length, take, ltb, Bool-cases, inl, inr, arith,
}
use costanza.Json.{Json}
use costanza.Result.{Result, ok, raised, bind}
use costanza.Schemas.{Time}
use costanza.Normalize.Common.{◌>>=◌}
use costanza.Clients.{page_of, stops, scan, history_from}
use costanza.Clients.Paging.{drop, take_add, take_short, take_all, drop_add}

module _ (parse_time : String → Option Time) (since : Option Time) where
  abbrev Scanned : Type 0
  Scanned = Result (List Json × Bool)

  -- A scan of a list, going on with a second one unless it stopped.
  abbrev then_scan : Scanned → Scanned → Scanned
  then_scan (raised exc) second = raised exc
  then_scan (ok (taken, true)) second = ok (taken, true)
  then_scan (ok (taken, false)) second = second >>= λ r. ok (taken ++ r.0, r.1)

  abbrev after_entry : Json → Result Bool → Scanned → Scanned
  after_entry entry (raised exc) rest = raised exc
  after_entry entry (ok true) rest = ok ([], true)
  after_entry entry (ok false) rest = rest >>= λ r. ok (entry ∷ r.0, r.1)

  scan_entry :
      (entry : Json) (entries : List Json)
      → scan parse_time since (entry ∷ entries)
        ≡ after_entry entry (stops parse_time since entry) (scan parse_time since entries)
  unfolding scan
  scan_entry entry entries = ground arith

  after_then :
      (entry : Json) (stop : Result Bool) (first second : Scanned)
      → after_entry entry stop (then_scan first second)
        ≡ then_scan (after_entry entry stop first) second
  after_then entry (raised exc) first second = refl
  after_then entry (ok true) first second = refl
  after_then entry (ok false) (raised exc) second = refl
  after_then entry (ok false) (ok (taken, true)) second = refl
  after_then entry (ok false) (ok (taken, false)) (raised exc) = refl
  after_then entry (ok false) (ok (taken, false)) (ok r) = refl

  then_nothing : (second : Scanned) → second ≡ then_scan (ok ([], false)) second
  then_nothing (raised exc) = refl
  then_nothing (ok r) = refl

  scan-append :
      (xs ys : List Json)
      → scan parse_time since (xs ++ ys)
        ≡ then_scan (scan parse_time since xs) (scan parse_time since ys)
  unfolding scan
  scan-append [] ys = then_nothing (scan parse_time since ys)
  scan-append (x ∷ xs) ys =
      scan_entry x (xs ++ ys)
      ∙ ap (after_entry x (stops parse_time since x)) (scan-append xs ys)
      ∙ after_then x (stops parse_time since x) (scan parse_time since xs)
          (scan parse_time since ys)
      ∙ ap (λ r. then_scan r (scan parse_time since ys)) (sym (scan_entry x xs))

  -- The records that a scan took.
  abbrev pub taken : Scanned → Result (List Json)
  taken (raised exc) = raised exc
  taken (ok r) = ok r.0

  -- What the loop does with a page that was scanned: it was full, or the last.
  abbrev settle_page : Scanned → Bool → Result (List Json) → Result (List Json)
  settle_page (raised exc) short rest = raised exc
  settle_page (ok (records, true)) short rest = ok records
  settle_page (ok (records, false)) true rest = ok records
  settle_page (ok (records, false)) false rest = rest >>= λ more. ok (records ++ more)

  settle_full :
      (first second : Scanned)
      → settle_page first false (taken second) ≡ taken (then_scan first second)
  settle_full (raised exc) second = refl
  settle_full (ok (records, true)) second = refl
  settle_full (ok (records, false)) (raised exc) = refl
  settle_full (ok (records, false)) (ok r) = refl

  settle_short :
      (first : Scanned) (rest : Result (List Json)) → settle_page first true rest ≡ taken first
  settle_short (raised exc) rest = refl
  settle_short (ok (records, true)) rest = refl
  settle_short (ok (records, false)) rest = refl

  -- The service cuts `all` into pages of `page_size`, the first being page 1.
  abbrev pub IsHistory : (ℕ → Result Json) → ℕ → List Json → Type 0
  IsHistory fetch page_size all =
      (k : ℕ)
      → bind (fetch (suc k)) (page_of "records") ≡ ok (take page_size (drop (k * page_size) all))

  module _ (fetch : ℕ → Result Json) (page_size : ℕ) (all : List Json)
      (paged : IsHistory fetch page_size all) where
    history_from-page :
        (pages page : ℕ) (response : Result Json) (entries : List Json)
        → fetch page ≡ response
        → bind response (page_of "records") ≡ ok entries
        → history_from parse_time fetch page_size since (suc pages) page
          ≡ settle_page
              (scan parse_time since entries)
              (ltb (length entries) page_size)
              (history_from parse_time fetch page_size since pages (suc page))
    unfolding history_from
    history_from-page pages page (raised exc) entries e h = cc
    history_from-page pages page (ok response) entries e h = rw (e, h) (ground arith)

    history_from-take :
        (pages k : ℕ)
        → history_from parse_time fetch page_size since pages (suc k)
          ≡ taken (scan parse_time since (take (pages * page_size) (drop (k * page_size) all)))
    unfolding history_from scan
    history_from-take zero k = let e : 0 * page_size ≡ 0 = omega arith in rw e refl
    history_from-take (suc pages) k =
        let e : suc pages * page_size ≡ page_size + pages * page_size = omega arith in
        let next : suc k * page_size ≡ k * page_size + page_size = omega arith in
        let rest = drop (k * page_size) all in
        history_from-page pages (suc k) (fetch (suc k)) (take page_size rest) refl (paged k)
        ∙ elim (Bool-cases (ltb (length (take page_size rest)) page_size)) [
          | inl short ↦
              rw (short, e, take_short page_size (pages * page_size) rest (ground arith))
                (settle_short (scan parse_time since (take page_size rest))
                  (history_from parse_time fetch page_size since pages (suc (suc k))))
          | inr full ↦
              rw
                (
                  full,
                  e,
                  history_from-take pages (suc k),
                  take_add page_size (pages * page_size) rest,
                  scan-append (take page_size rest)
                      (take (pages * page_size) (drop page_size rest)),
                  drop_add (k * page_size) page_size all,
                  next,
                )
                (settle_full (scan parse_time since (take page_size rest)) (
                  scan parse_time since
                    (take (pages * page_size) (drop (k * page_size + page_size) all))))
        ]

-- A service that cuts a list of at most `pages * page_size` records into pages of `page_size`: the
-- paged loop of the Radarr and Sonarr client, with that many pages allowed, gives what one scan of the
-- whole list takes: the records before the first that is older than `since`, or the exception that
-- reading their dates raises.
pub history_from-all :
    (parse_time : String → Option Time) (since : Option Time) (fetch : ℕ → Result Json)
    (page_size pages : ℕ) (all : List Json)
    → IsHistory parse_time since fetch page_size all
    → length all ≤ pages * page_size
    → history_from parse_time fetch page_size since pages 1
      ≡ taken parse_time since (scan parse_time since all)
history_from-all parse_time since fetch page_size pages all paged fits =
    let e : 0 * page_size ≡ 0 = omega arith in
    history_from-take parse_time since fetch page_size all paged pages 0
    ∙ rw e (
        ap (λ xs. taken parse_time since (scan parse_time since xs))
          (take_all (pages * page_size) all fits))
