-- ===== src/Access/RateLimit/Window.antt =====
-- The limiter over a sequence of requests and cleaning rounds.
use apod.Base.{
  ℕ, ◌+◌, ◌≤◌, ◌≡◌, inl, inr, refl, sym, subst, ◌∙◌, Bool, ◌&&◌, String, List, [], ◌∷◌, ◌++◌, ◌==◌,
  nat_eq, string_eq, if◌then◌else◌, count, length, ltb, arith, Bool-cases,
}
use apod.Access.RateLimit.{RateLimiter, new_rate_limiter, is_recent, recent, allow, cleanup}

-- A step of the limiter: a request for a key, or a round of the cleaning goroutine, at a time.
pub data Event : Type 0 where
  request : String → ℕ → Event
  sweep : ℕ → Event

abbrev pub time_of : Event → ℕ
time_of (request key now) = now
time_of (sweep now) = now

unfoldable pub limiter_step : RateLimiter → Event → RateLimiter
limiter_step rl (request key now) = (allow rl key now).0
limiter_step rl (sweep now) = cleanup rl now

unfoldable pub run_events : RateLimiter → List Event → RateLimiter
run_events rl [] = rl
run_events rl (e ∷ es) = run_events (limiter_step rl e) es

-- The time of an event that admits a request for the key.
unfoldable pub admits : String → RateLimiter → Event → List ℕ
admits k rl (request key now) = if k == key && (allow rl key now).1 then now ∷ [] else []
admits k rl (sweep now) = []

-- The times of all the admitted requests for a key.
unfoldable pub admitted : String → RateLimiter → List Event → List ℕ
admitted k rl [] = []
admitted k rl (e ∷ es) = admits k rl e ++ admitted k (limiter_step rl e) es

-- The events happen one after the other between two times.
abbrev pub InOrder : ℕ → List Event → ℕ → Type 0
InOrder t0 [] now = t0 ≤ now
InOrder t0 (e ∷ es) now = (t0 ≤ time_of e) × InOrder (time_of e) es now

pub count-append : (p : ℕ → Bool) (xs ys : List ℕ) → count p (xs ++ ys) ≡ count p xs + count p ys
unfolding count
count-append p [] ys = ground arith
count-append p (x ∷ xs) ys = ground (arith, count-append p xs ys)

length-recent : (w now : ℕ) (ts : List ℕ) → length (recent w now ts) ≡ count (is_recent w now) ts
unfolding recent count
length-recent w now [] = refl
length-recent w now (t ∷ ts) = ground (arith, length-recent w now ts)

-- What a later time still counts, the filter keeps.
count-recent :
    (w now later : ℕ) (ts : List ℕ)
    → now ≤ later
    → count (is_recent w later) (recent w now ts) ≡ count (is_recent w later) ts
unfolding recent count
count-recent w now later [] h = refl
count-recent w now later (t ∷ ts) h = ground (arith, count-recent w now later ts h)

pub count-later :
    (w now later : ℕ) (ts : List ℕ)
    → now ≤ later
    → count (is_recent w later) ts ≤ count (is_recent w now) ts
unfolding count
count-later w now later [] h = omega arith
count-later w now later (t ∷ ts) h = ground (arith, count-later w now later ts h)

pub limiter_step-fixed :
    (rl : RateLimiter) (e : Event)
    → ((limiter_step rl e).window ≡ rl.window) × ((limiter_step rl e).limit ≡ rl.limit)
unfolding limiter_step allow cleanup
limiter_step-fixed rl (sweep now) = (refl, refl)
limiter_step-fixed rl (request key now) = (ground arith, ground arith)

-- From a time on, `c` counts what the limiter still holds of a key.
abbrev pub Tracks : ℕ → List ℕ → ℕ → (ℕ → ℕ) → Type 0
Tracks w times t0 c = (later : ℕ) → t0 ≤ later → c later ≡ count (is_recent w later) times

pub Tracks-limiter_step :
    (rl : RateLimiter) (k : String) (t0 : ℕ) (c : ℕ → ℕ) (e : Event)
    → t0 ≤ time_of e
    → Tracks rl.window (rl.requests k) t0 c
    → Tracks rl.window
        ((limiter_step rl e).requests k)
        (time_of e)
        (λ later. count (is_recent rl.window later) (admits k rl e) + c later)
unfolding limiter_step admits allow cleanup count
Tracks-limiter_step rl k t0 c (sweep now) h t later l =
    ground (arith, t later, count-recent rl.window now later (rl.requests k) l)
Tracks-limiter_step rl k t0 c (request key now) h t later l = elim (Bool-cases (k == key)) [
  | inl same ↦ ground (
    arith,
    (string_eq.beq_iff k key).0 same,
    t later,
    count-recent rl.window now later (rl.requests k) l,
    count-append (is_recent rl.window later) (recent rl.window now (rl.requests k)) (now ∷ []),
  )
  | inr other ↦ ground (arith, other, t later)
]

Tracks-run_events :
    (es : List Event) (rl : RateLimiter) (k : String) (t0 now : ℕ) (c : ℕ → ℕ)
    → InOrder t0 es now
    → Tracks rl.window (rl.requests k) t0 c
    → Tracks rl.window
        ((run_events rl es).requests k)
        now
        (λ later. count (is_recent rl.window later) (admitted k rl es) + c later)
unfolding run_events admitted count
Tracks-run_events [] rl k t0 now c o t later l = ground (arith, t later)
Tracks-run_events (e ∷ es) rl k t0 now c (o, os) t later l =
    let rl' : RateLimiter = limiter_step rl e in
    let (same_window, _) = limiter_step-fixed rl e in
    let step = Tracks-limiter_step rl k t0 c e o t in
    let rest =
      Tracks-run_events es rl' k (time_of e) now
        (λ later. count (is_recent rl.window later) (admits k rl e) + c later) os
        (subst
          (λ w.
            Tracks w (rl'.requests k) (time_of e)
              (λ later. count (is_recent rl.window later) (admits k rl e) + c later))
          (sym same_window) step)
        later l in
    ground (
      arith,
      rest,
      same_window,
      count-append (is_recent rl.window later) (admits k rl e) (admitted k rl' es),
    )

pub allow_iff :
    (rl : RateLimiter) (key : String) (now : ℕ)
    → (allow rl key now).1 ≡ ltb (count (is_recent rl.window now) (rl.requests key)) rl.limit
unfolding allow
allow_iff rl key now = ground (arith, length-recent rl.window now (rl.requests key))

run_events-fixed :
    (es : List Event) (rl : RateLimiter)
    → ((run_events rl es).window ≡ rl.window) × ((run_events rl es).limit ≡ rl.limit)
unfolding run_events
run_events-fixed [] rl = (refl, refl)
run_events-fixed (e ∷ es) rl =
    let (w, l) = limiter_step-fixed rl e in
    let (w', l') = run_events-fixed es (limiter_step rl e) in (w' ∙ w, l' ∙ l)

-- A new limiter, after any requests and cleaning rounds in the order of their times, admits a request
-- for a key exactly when fewer than `limit` requests for that key were admitted less than `window` ago:
-- requests for other keys and the cleaning make no difference, and refused requests do not count.
pub allow-run_events :
    (limit window now : ℕ) (key : String) (es : List Event)
    → InOrder 0 es now
    → (allow (run_events (new_rate_limiter limit window) es) key now).1
      ≡ ltb (count (is_recent window now) (admitted key (new_rate_limiter limit window) es)) limit
unfolding count
allow-run_events limit window now key es o =
    let rl = new_rate_limiter limit window in
    let (w, l) = run_events-fixed es rl in
    let t = Tracks-run_events es rl key 0 now (λ later. 0) o (λ later h. refl) now (omega arith) in
    let a = allow_iff (run_events rl es) key now in ground (arith, a, w, l, t)
