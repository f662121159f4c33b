-- ===== src/Store/Media.antt =====
-- src/costanza/store/db.py, "media identity".
use costanza.Prelude.{
  String, Bool, true, false, not, ◌&&◌, ◌||◌, Option, none, some, List, [], ◌∷◌, ◌++◌, any, find?,
  update_where, ◌==◌, if◌then◌else◌,
}
use costanza.Json.{ℤ, int_eq, to_ℤ_truthy}
use costanza.Result.{ok, raised, Exec, integrity_error, ◌>>=◌}
use costanza.Schemas.{Time, MediaKind, MediaRef}
use costanza.Store.{Db, MediaRow, new_id}

abbrev pub is_media : String → MediaRow → Bool
is_media id row = row.id == id

unfoldable pub get_media : Db → String → Option MediaRow
get_media db media_id = find? (is_media media_id) db.media

-- "series" if ref.kind in ("series", "season", "episode") else "movie"
abbrev pub row_kind : Option MediaKind → MediaKind
row_kind (some MediaKind.series) = MediaKind.series
row_kind (some MediaKind.season) = MediaKind.series
row_kind (some MediaKind.episode) = MediaKind.series
row_kind (some MediaKind.movie) = MediaKind.movie
row_kind none = MediaKind.movie

abbrev pub kind_eq : MediaKind → MediaKind → Bool
kind_eq MediaKind.movie MediaKind.movie = true
kind_eq MediaKind.series MediaKind.series = true
kind_eq MediaKind.season MediaKind.season = true
kind_eq MediaKind.episode MediaKind.episode = true
kind_eq _ _ = false

abbrev pub int_is : ℤ → Option ℤ → Bool
int_is n none = false
int_is n (some m) = int_eq m n

abbrev pub text_is : String → Option String → Bool
text_is s none = false
text_is s (some t) = t == s

-- `year IS ?`, where NULL is NULL.
abbrev pub year_is : Option ℤ → Option ℤ → Bool
year_is none none = true
year_is none (some m) = false
year_is (some n) y = int_is n y

abbrev by_tmdb : MediaKind → ℤ → MediaRow → Bool
by_tmdb kind n row = int_is n row.tmdb_id && kind_eq row.kind kind

abbrev by_tvdb : MediaKind → ℤ → MediaRow → Bool
by_tvdb kind n row = int_is n row.tvdb_id && kind_eq row.kind kind

abbrev by_imdb : MediaKind → String → MediaRow → Bool
by_imdb kind s row = text_is s row.imdb_id && kind_eq row.kind kind

-- `title = ?` holds of no row where the argument is NULL.
abbrev by_title : MediaKind → Option String → Option ℤ → MediaRow → Bool
by_title kind none year row = false
by_title kind (some title) year row =
    kind_eq row.kind kind && text_is title row.title && year_is year row.year

-- One round of the loop over the id columns: a missing value is skipped.
abbrev pub probe {ℓ} :
    {A : Type ℓ} → (A → MediaRow → Bool) → Option A → List MediaRow → Option MediaRow
probe test none rows = none
probe test (some value) rows = find? (test value) rows

abbrev pub or_try {ℓ} : {A : Type ℓ} → Option A → Option A → Option A
or_try none second = second
or_try (some a) second = some a

abbrev pub int_truthy : Option ℤ → Bool
int_truthy none = false
int_truthy (some n) = to_ℤ_truthy n

abbrev pub text_truthy : Option String → Bool
text_truthy none = false
text_truthy (some s) = not (s == "")

-- any((ref.tmdb_id, ref.tvdb_id, ref.imdb_id))
abbrev pub has_ids : MediaRef → Bool
has_ids ref = int_truthy ref.tmdb_id || int_truthy ref.tvdb_id || text_truthy ref.imdb_id

-- The row that a reference resolves to: by tmdb, then tvdb, then imdb id; by title and year only
-- where the reference has no id.
unfoldable pub find_media : MediaRef → List MediaRow → Option MediaRow
find_media ref rows =
    let kind = row_kind ref.kind in
    or_try (probe (by_tmdb kind) ref.tmdb_id rows) (
      or_try (probe (by_tvdb kind) ref.tvdb_id rows) (
        or_try (probe (by_imdb kind) ref.imdb_id rows)
          (if has_ids ref then none else find? (by_title kind ref.title ref.year) rows)))

-- A column is filled only where it is NULL.
abbrev pub fill {ℓ} : {A : Type ℓ} → Option A → Option A → Option A
fill value none = value
fill value (some old) = some old

-- The UPDATE writes the columns that the row read before lacks.
abbrev write_missing {ℓ} : {A : Type ℓ} → Option A → Option A → Option A → Option A
write_missing none value old = or_try value old
write_missing (some seen) value old = old

unfoldable pub backfill : MediaRef → MediaRow → MediaRow → MediaRow
backfill ref seen row = record row {
  tmdb_id = write_missing seen.tmdb_id ref.tmdb_id row.tmdb_id;
  tvdb_id = write_missing seen.tvdb_id ref.tvdb_id row.tvdb_id;
  imdb_id = write_missing seen.imdb_id ref.imdb_id row.imdb_id;
  title = write_missing seen.title ref.title row.title;
  year = write_missing seen.year ref.year row.year;
}

insert_media : MediaRow → Exec Db String
insert_media row db =
    if any (is_media row.id) db.media
    then (raised integrity_error, db)
    else (ok row.id, record db { media = db.media ++ row ∷ [] })

create_media : MediaRef → Time → Exec Db String
unfolding insert_media new_id
create_media ref now = do
  media_id ← new_id
  insert_media (record {
    id = media_id;
    tmdb_id = ref.tmdb_id;
    tvdb_id = ref.tvdb_id;
    imdb_id = ref.imdb_id;
    kind = row_kind ref.kind;
    title = ref.title;
    year = ref.year;
    added_at = now;
  })

-- The ids have no bound; SQLite raises an OverflowError for one of 2^63 or more.
unfoldable pub find_or_create_media : MediaRef → Time → Exec Db String
unfolding create_media find_media backfill
find_or_create_media ref now db = elim (find_media ref db.media) [
  | none ↦ create_media ref now db
  | some row ↦
      (ok row.id, record db { media = update_where (is_media row.id) (backfill ref row) db.media })
]
