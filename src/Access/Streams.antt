-- ===== src/Access/Streams.antt =====
-- internal/server/routes.go: the limits on open event streams. Its mutex makes each call one step; a
-- missing key of the map is 0.
pub mod Limits
use apod.Base.{
  ℕ, ◌+◌, ◌-◌, Bool, true, false, ◌||◌, String, ◌==◌, nat_eq, string_eq, if◌then◌else◌, ltb, leb,
}

abbrev pub max_sse_per_user : ℕ
max_sse_per_user = 8

abbrev pub max_sse_global : ℕ
max_sse_global = 512

-- `sseGlobal` and `ssePerUser`.
pub record Streams : Type 0 where
  pub sse_global : ℕ
  pub sse_per_user : String → ℕ

abbrev pub no_streams : Streams
no_streams = record { sse_global = 0; sse_per_user = λ user. 0 }

-- `acquireSSE`.
unfoldable pub acquire_sse : Streams → String → Streams × Bool
acquire_sse s user =
    if leb max_sse_global s.sse_global || leb max_sse_per_user (s.sse_per_user user)
    then (s, false)
    else (
      record {
        sse_global = s.sse_global + 1;
        sse_per_user = λ u. if u == user then s.sse_per_user u + 1 else s.sse_per_user u;
      },
      true,
    )

-- `releaseSSE`. The subtraction of the source is on a counter above 0, or above 1 for a user.
unfoldable pub release_sse : Streams → String → Streams
release_sse s user = record {
  sse_global = if ltb 0 s.sse_global then s.sse_global - 1 else s.sse_global;
  sse_per_user = λ u.
      if u == user
      then (if leb (s.sse_per_user u) 1 then 0 else s.sse_per_user u - 1)
      else s.sse_per_user u;
}
