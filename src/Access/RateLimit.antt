-- ===== src/Access/RateLimit.antt =====
-- internal/server/ratelimit.go: the sliding-window limiter. The map is a function from keys, on which
-- a missing key and an empty list are alike; its mutex makes each call one step.
pub mod Window
pub mod Bound
pub mod Client
use apod.Base.{
  ℕ, ◌+◌, Bool, true, false, not, ◌&&◌, ◌||◌, String, List, [], ◌∷◌, ◌++◌, ◌==◌, nat_eq, string_eq,
  if◌then◌else◌, length, ltb, leb, trim_space, split,
}
use apod.Access.{Request, Context, Outcome, respond, pass}
use apod.Access.Identity.{is_proxied_web}

pub record RateLimiter : Type 0 where
  pub requests : String → List ℕ
  pub limit : ℕ
  pub window : ℕ

-- `newRateLimiter`, without the goroutine that cleans up.
abbrev pub new_rate_limiter : ℕ → ℕ → RateLimiter
new_rate_limiter limit window = record { requests = λ key. []; limit = limit; window = window }

-- `t.After(now.Add(-window))`, which is `now.Sub(t) < window`.
abbrev pub is_recent : ℕ → ℕ → ℕ → Bool
is_recent window now t = ltb now (t + window)

-- The loop that filters the times of a key.
unfoldable pub recent : ℕ → ℕ → List ℕ → List ℕ
recent window now [] = []
recent window now (t ∷ times) =
    if is_recent window now t then t ∷ recent window now times else recent window now times

abbrev pub set_times : RateLimiter → String → List ℕ → RateLimiter
set_times rl key times = record rl { requests = λ k. if k == key then times else rl.requests k }

-- `allow`.
unfoldable pub allow : RateLimiter → String → ℕ → RateLimiter × Bool
unfolding recent
allow rl key now =
    let times = recent rl.window now (rl.requests key) in
    if leb rl.limit (length times)
    then (set_times rl key times, false)
    else (set_times rl key (times ++ now ∷ []), true)

-- One round of the goroutine of `newRateLimiter`.
unfoldable pub cleanup : RateLimiter → ℕ → RateLimiter
unfolding recent
cleanup rl now = record rl { requests = λ k. recent rl.window now (rl.requests k) }

-- What `clientIP` calls: `net.SplitHostPort` (empty on an error) and `isTrustedProxy`.
pub record Network : Type 0 where
  pub host : String → String
  pub is_trusted_proxy : String → Bool

-- The last part of a split.
unfoldable pub last_part : List String → String
last_part [] = ""
last_part (p ∷ []) = p
last_part (p ∷ q ∷ parts) = last_part (q ∷ parts)

-- `clientIP`.
unfoldable pub client_ip : Network → Request → String
unfolding split last_part trim_space
client_ip net r =
    let split_host = net.host r.remote_addr in
    let ip = if split_host == "" then r.remote_addr else split_host in
    let candidate = trim_space (last_part (split r.forwarded_for b',')) in
    if (net.is_trusted_proxy ip || (r.is_unix && is_proxied_web r))
      && not (r.forwarded_for == "")
      && not (candidate == "")
    then candidate
    else ip

-- `RateLimitMiddleware`: the limiter after the request, and what the request meets.
unfoldable pub rate_limit_middleware :
    Network → Request → ℕ → Context → RateLimiter → RateLimiter × Outcome
rate_limit_middleware net r now ctx rl =
    if r.is_unix && not (is_proxied_web r)
    then (rl, pass ctx)
    else let (rl', admitted) = allow rl (client_ip net r) now in
      (rl', if admitted then pass ctx else respond 429)
