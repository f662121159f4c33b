-- ===== src/Normalize/Dispatch.antt =====
-- src/costanza/normalize/__init__.py: the normalizer of a source's kind.
use costanza.Prelude.{ℕ, String, List, ◌==◌, if◌then◌else◌, length}
use costanza.Json.{Json}
use costanza.Result.{Result, ok, raised}
use costanza.Stdlib.{Stdlib}
use costanza.Schemas.{CanonicalEvent}
use costanza.Config.{WatchCompletionConfig, value_error}
use costanza.Normalize.Common.{Text, ◌>>=◌}
use costanza.Normalize.Seerr.{normalize_seerr}
use costanza.Normalize.Radarr.{normalize_radarr}
use costanza.Normalize.Sonarr.{normalize_sonarr}
use costanza.Normalize.Tautulli.{normalize_tautulli}

module _ (lib : Stdlib) (re : Text) (watch : WatchCompletionConfig) where
  events_of : (ℕ → String) → String → String → Json → Result (List CanonicalEvent)
  unfolding normalize_seerr normalize_radarr normalize_sonarr normalize_tautulli
  events_of ids source kind payload =
      if kind == "seerr"
      then normalize_seerr lib re (ids 0) source payload
      else if kind == "radarr"
      then normalize_radarr lib (ids 0) source payload
      else if kind == "sonarr"
      then normalize_sonarr lib (ids 0) source payload
      else if kind == "tautulli"
      then normalize_tautulli lib (ids 0) (ids 1) source watch payload
      else raised (value_error "no normalizer for source kind")

  -- The events, and how many ids they drew: one each.
  unfoldable pub normalize :
      (ℕ → String) → String → String → Json → Result (ℕ × List CanonicalEvent)
  unfolding events_of
  normalize ids source kind payload =
      events_of ids source kind payload >>= λ events. ok (length events, events)
