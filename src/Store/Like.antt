-- ===== src/Store/Like.antt =====
-- SQLite's LIKE, as `event_key_like` of src/costanza/store/db.py uses it: `%` is any text, `_` any
-- character, and ASCII letters compare without case.
use Prim.Native.Char.{code}
use costanza.Prelude.{
  ℕ, ◌+◌, String, Bool, true, false, ◌&&◌, ◌||◌, any, leb, eqb, if◌then◌else◌, ◌≡◌, refl,
}
use costanza.Store.{Db, EventRow}

fold_case : ℕ → ℕ
fold_case c = if leb b'A' c && leb c b'Z' then c + 32 else c

unfoldable pub like : String → String → Bool
unfolding fold_case
like String.[] String.[] = true
like String.[] (String.◌∷◌ d t) = false
like (String.◌∷◌ c p) String.[] = let rest = like p String.[] in eqb (code c) b'%' && rest
like (String.◌∷◌ c p) (String.◌∷◌ d t) = elim (eqb (code c) b'%') [
  | true ↦ like p (String.◌∷◌ d t) || like (String.◌∷◌ c p) t
  | false ↦ (eqb (code c) b'_' || eqb (fold_case (code c)) (fold_case (code d))) && like p t
]

unfoldable pub event_key_like : Db → String → Bool
unfolding like
event_key_like db pattern = any (λ (row : EventRow). like pattern row.source_event_key) db.events

like_test : like "radarr:media.grabbed:7:%ab%" "Radarr:media.grabbed:7:S01:AB" ≡ true
unfolding like
like_test = refl
