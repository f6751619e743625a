-- ===== src/Access/RateLimit/Bound.antt =====
-- How many requests the limiter admits in any window.
use apod.Base.{
  ℕ, ◌+◌, ◌≤◌, inl, inr, refl, sym, subst, Bool, ◌&&◌, String, List, [], ◌∷◌, ◌==◌, nat_eq,
  string_eq, count, leb, arith, Bool-cases,
}
use apod.Access.RateLimit.{RateLimiter, new_rate_limiter, is_recent}
use apod.Access.RateLimit.Window.{
  Event, request, sweep, time_of, limiter_step, admits, admitted, InOrder, Tracks,
  Tracks-limiter_step, limiter_step-fixed, count-append, count-later, allow_iff,
}

-- The admitted requests that a window ending at a time counts.
abbrev pub is_within : ℕ → ℕ → ℕ → Bool
is_within window end t = leb t end && is_recent window end t

count-is_within :
    (w end : ℕ) (ts : List ℕ) → count (is_within w end) ts ≤ count (is_recent w end) ts
unfolding count
count-is_within w end [] = omega arith
count-is_within w end (t ∷ ts) = ground (arith, count-is_within w end ts)

-- One event: `held` counts what the limiter holds of a key, and `within` no more than that.
within-admits :
    (rl : RateLimiter) (k : String) (t0 : ℕ) (held within : ℕ → ℕ) (e : Event)
    → t0 ≤ time_of e
    → Tracks rl.window (rl.requests k) t0 held
    → ((end : ℕ) → within end ≤ held end)
    → ((end : ℕ) → within end ≤ rl.limit)
    → (end : ℕ) → count (is_within rl.window end) (admits k rl e) + within end ≤ rl.limit
unfolding admits count
within-admits rl k t0 held within (sweep now) o t h b end = ground (arith, b end)
within-admits rl k t0 held within (request key now) o t h b end = elim (Bool-cases (k == key)) [
  | inr other ↦ ground (arith, other, b end)
  | inl same ↦ ground (
    arith,
    (string_eq.beq_iff k key).0 same,
    b end,
    h end,
    t end,
    allow_iff rl k now,
    count-later rl.window now end (rl.requests k),
  )
]

within-admitted :
    (es : List Event) (rl : RateLimiter) (k : String) (t0 now : ℕ) (held within : ℕ → ℕ)
    → InOrder t0 es now
    → Tracks rl.window (rl.requests k) t0 held
    → ((end : ℕ) → within end ≤ held end)
    → ((end : ℕ) → within end ≤ rl.limit)
    → (end : ℕ) → count (is_within rl.window end) (admitted k rl es) + within end ≤ rl.limit
unfolding admitted count
within-admitted [] rl k t0 now held within o t h b end = ground (arith, b end)
within-admitted (e ∷ es) rl k t0 now held within (o, os) t h b end =
    let rl' : RateLimiter = limiter_step rl e in
    let w = rl.window in
    let (same_window, same_limit) = limiter_step-fixed rl e in
    let held' : ℕ → ℕ = λ x. count (is_recent w x) (admits k rl e) + held x in
    let within' : ℕ → ℕ = λ x. count (is_within w x) (admits k rl e) + within x in
    let rest =
      within-admitted es rl' k (time_of e) now held' within' os
        (subst (λ v. Tracks v (rl'.requests k) (time_of e) held') (sym same_window)
          (Tracks-limiter_step rl k t0 held e o t))
        (λ x. omega (arith, h x, count-is_within w x (admits k rl e)))
        (λ x.
          subst (λ n. within' x ≤ n) (sym same_limit)
            (within-admits rl k t0 held within e o t h b x))
        end in
    ground (
      arith,
      rest,
      same_window,
      same_limit,
      count-append (is_within w end) (admits k rl e) (admitted k rl' es),
    )

-- Whatever the order in which requests for all keys and cleaning rounds come, a new limiter admits in
-- any window, wherever it ends, at most `limit` requests for one key.
pub admitted_le_limit :
    (limit window now end : ℕ) (key : String) (es : List Event)
    → InOrder 0 es now
    → count (is_within window end) (admitted key (new_rate_limiter limit window) es) ≤ limit
unfolding count
admitted_le_limit limit window now end key es o = omega (
  arith,
  within-admitted es (new_rate_limiter limit window) key 0 now (λ x. 0) (λ x. 0) o (λ x h. refl)
      (λ x. omega arith) (λ x. omega arith) end,
)
