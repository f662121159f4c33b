-- ===== src/Notify/Limits/Window.antt =====
-- The rate limiter of src/costanza/notify/limits.py over a run of requests: no window of a minute
-- holds more accepted sends of a channel than the limit.
use costanza.Prelude.{
  ℕ, suc, ◌+◌, ◌≤◌, ◌<◌, String, ◌≡◌, refl, Bool, true, false, ◌&&◌, List, [], ◌∷◌, ◌++◌, arith,
  length, count, count-append_row, leb, ◌==◌, if◌then◌else◌, Bool-cases, inl, inr, leb→le, eq_iff,
  max,
}
use costanza.Schemas.{Time}
use costanza.Notify.Limits.{RateLimiter, rate_limiter, evict, allow, window}

-- The times at which sends of `channel` are accepted, over requests in order.
pub accepted : String → List (String × Time) → RateLimiter → List Time
accepted channel [] limiter = []
accepted channel ((c, now) ∷ requests) limiter =
    let (ok, limiter') = allow c now limiter in
    let rest = accepted channel requests limiter' in if ok && channel == c then now ∷ rest else rest

-- The requests come in order of time, from `t` on.
abbrev pub Ordered : Time → List (String × Time) → Type 0
Ordered t [] = Unit {0}
Ordered t ((c, now) ∷ requests) = (t ≤ now) × Ordered now requests

-- a ≤ t ≤ a + one minute
abbrev pub in_window : Time → Time → Bool
in_window a t = leb a t && leb t (a + window)

count-le-length : (p : Time → Bool) (ts : List Time) → count p ts ≤ length ts
unfolding count
count-le-length p [] = omega arith
count-le-length p (t ∷ ts) = ground (arith, count-le-length p ts)

length-append_row : (ts : List Time) (t : Time) → length (ts ++ t ∷ []) ≡ suc (length ts)
length-append_row [] t = refl
length-append_row (s ∷ ts) t = omega (arith, length-append_row ts t)

length-evict-le : (now : Time) (ts : List Time) → length (evict now ts) ≤ length ts
unfolding evict
length-evict-le now [] = omega arith
length-evict-le now (t ∷ ts) = ground (arith, length-evict-le now ts)

-- What leaves the deque is too old for a window that holds `now`.
count-evict :
    (a now : Time) (ts : List Time)
    → now ≤ a + window
    → count (in_window a) (evict now ts) ≡ count (in_window a) ts
unfolding evict count
count-evict a now [] h = refl
count-evict a now (t ∷ ts) h = ground (arith, count-evict a now ts)

-- Later requests are accepted outside a window that has ended.
count-accepted_late :
    (a t : Time) (channel : String) (requests : List (String × Time)) (limiter : RateLimiter)
    → Ordered t requests
    → a + window < t
    → count (in_window a) (accepted channel requests limiter) ≡ 0
unfolding accepted count
count-accepted_late a t channel [] limiter o h = refl
count-accepted_late a t channel ((c, now) ∷ requests) limiter o h =
    ground (arith, count-accepted_late a now channel requests (allow c now limiter).1 o.1)

limit-allow :
    (c : String) (now : Time) (limiter : RateLimiter)
    → (allow c now limiter).1.limit ≡ limiter.limit
unfolding allow
limit-allow c now limiter = ground arith

-- The deque of a channel after a call, by whether the call was for that channel and accepted.
sent-allow_ne :
    (channel c : String) (now : Time) (limiter : RateLimiter)
    → (channel == c) ≡ false
    → (allow c now limiter).1.sent channel ≡ limiter.sent channel
unfolding allow
sent-allow_ne channel c now limiter h = ground arith

sent-allow_self :
    (channel c : String) (now : Time) (limiter : RateLimiter)
    → (channel == c) ≡ true
    → (allow c now limiter).1.sent channel ≡ (
        if (allow c now limiter).0
        then evict now (limiter.sent c) ++ now ∷ []
        else evict now (limiter.sent c))
unfolding allow
sent-allow_self channel c now limiter h = ground arith

allow-room :
    (c : String) (now : Time) (limiter : RateLimiter)
    → (allow c now limiter).0 ≡ true
    → length (evict now (limiter.sent c)) < limiter.limit
unfolding allow
allow-room c now limiter h = ground arith

abbrev Fits : String → RateLimiter → Type 0
Fits channel limiter = length (limiter.sent channel) ≤ limiter.limit

allow-Fits :
    (channel c : String) (now : Time) (limiter : RateLimiter)
    → Fits channel limiter
    → Fits channel (allow c now limiter).1
allow-Fits channel c now limiter h = elim (Bool-cases (channel == c)) [
  | inl e ↦ ground (
    arith,
    limit-allow c now limiter,
    sent-allow_self channel c now limiter e,
    allow-room c now limiter,
    length-append_row (evict now (limiter.sent c)) now,
    length-evict-le now (limiter.sent c),
    (eq_iff channel c).0 e,
  )
  | inr e ↦ ground (arith, limit-allow c now limiter, sent-allow_ne channel c now limiter e)
]

-- One request, given the bound for the requests after it.
bound_step :
    (a t : Time) (channel c : String) (now : Time) (requests : List (String × Time))
    (limiter : RateLimiter)
    → now ≤ a + window
    → count (in_window a) ((allow c now limiter).1.sent channel)
        + count (in_window a) (accepted channel requests (allow c now limiter).1)
      ≤ (allow c now limiter).1.limit
    → count (in_window a) (limiter.sent channel)
        + count (in_window a) (accepted channel ((c, now) ∷ requests) limiter)
      ≤ limiter.limit
unfolding accepted count
bound_step a t channel c now requests limiter h ih = elim (Bool-cases (channel == c)) [
  | inl e ↦ ground (
    arith,
    limit-allow c now limiter,
    sent-allow_self channel c now limiter e,
    count-evict a now (limiter.sent c) h,
    count-append_row (in_window a) (evict now (limiter.sent c)) now,
    (eq_iff channel c).0 e,
  )
  | inr e ↦ ground (arith, limit-allow c now limiter, sent-allow_ne channel c now limiter e)
]

bound_from :
    (a t : Time) (channel : String) (requests : List (String × Time)) (limiter : RateLimiter)
    → Fits channel limiter
    → Ordered t requests
    → count (in_window a) (limiter.sent channel)
        + count (in_window a) (accepted channel requests limiter)
      ≤ limiter.limit
bound_from a t channel [] limiter fits o =
    unfold accepted count in omega (arith, count-le-length (in_window a) (limiter.sent channel))
bound_from a t channel ((c, now) ∷ requests) limiter fits o =
    elim (Bool-cases (leb now (a + window))) [
      | inl soon ↦ bound_step a t channel c now requests limiter (leb→le now (a + window) soon) (
          bound_from a now channel requests (allow c now limiter).1
            (allow-Fits channel c now limiter fits) o.1)
      | inr late ↦ ground (
        arith,
        count-le-length (in_window a) (limiter.sent channel),
        count-accepted_late a now channel ((c, now) ∷ requests) limiter,
      )
    ]

-- From a fresh limiter, over any requests whose times do not decrease, at most
-- `max 1 per_channel_per_minute` sends of a channel are accepted within any window of one minute,
-- both ends included.
pub accepted-in-window-le :
    (per_channel_per_minute : ℕ) (channel : String) (requests : List (String × Time)) (a : Time)
    → Ordered 0 requests
    → count (in_window a) (accepted channel requests (rate_limiter per_channel_per_minute))
      ≤ max 1 per_channel_per_minute
accepted-in-window-le n channel requests a o =
    unfold rate_limiter count in
    omega (
      arith,
      bound_from a 0 channel requests (rate_limiter n) (unfold rate_limiter in omega arith) o,
    )
