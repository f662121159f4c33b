-- ===== src/Notify/Limits.antt =====
-- src/costanza/notify/limits.py: the kill switch and the rate limiter.
pub mod Window
use costanza.Prelude.{
  ℕ, suc, ◌+◌, String, Bool, true, false, ◌||◌, List, [], ◌∷◌, ◌++◌, length, max, ltb, leb, ◌==◌,
  if◌then◌else◌,
}
use costanza.Schemas.{Time, minutes}
use costanza.Store.{Db}
use costanza.Store.Control.{SwitchState, kill_switch_state, set_kill_switch}

-- `KillSwitch.engaged`, where `env_override` is the flag of the object.
unfoldable pub engaged : Bool → Db → Bool
unfolding kill_switch_state
engaged env_override db = if env_override then true else (kill_switch_state db).engaged

-- `KillSwitch.state`: the stored row with the override put in, and the override.
unfoldable pub state : Bool → Db → SwitchState × Bool
unfolding kill_switch_state
state env_override db =
    let stored = kill_switch_state db in
    (record stored { engaged = env_override || stored.engaged }, env_override)

unfoldable pub set_switch : Bool → Bool → String → String → Time → Db → (SwitchState × Bool) × Db
unfolding set_kill_switch state
set_switch env_override engaged set_by via now db =
    let db' = (set_kill_switch engaged set_by via now db).1 in (state env_override db', db')

abbrev pub window : Time
window = minutes 1

-- A channel that is missing from the dict has an empty deque.
pub record RateLimiter : Type 0 where
  pub limit : ℕ
  pub sent : String → List Time

unfoldable pub rate_limiter : ℕ → RateLimiter
rate_limiter per_channel_per_minute = record {
  limit = max 1 per_channel_per_minute;
  sent = λ channel. [];
}

-- The `while` loop: entries older than the window leave at the front.
unfoldable pub evict : Time → List Time → List Time
evict now [] = []
evict now (t ∷ ts) = let rest = evict now ts in if ltb (t + window) now then rest else t ∷ ts

abbrev pub put_sent : String → List Time → RateLimiter → RateLimiter
put_sent channel times limiter = record limiter {
  sent = λ c. if c == channel then times else limiter.sent c;
}

unfoldable pub allow : String → Time → RateLimiter → Bool × RateLimiter
unfolding evict
allow channel now limiter =
    let recent = evict now (limiter.sent channel) in
    if leb limiter.limit (length recent)
    then (false, put_sent channel recent limiter)
    else (true, put_sent channel (recent ++ now ∷ []) limiter)
