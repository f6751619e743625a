-- ===== src/Access/Streams/Limits.antt =====
-- The counters against the streams that are open.
use apod.Base.{
  ℕ, ◌+◌, ◌≤◌, ◌<◌, ◌≡◌, ◌↔◌, refl, sym, subst, true, false, String, List, [], ◌∷◌, ◌++◌, ◌==◌,
  nat_eq, string_eq, if◌then◌else◌, count, length, length-append, arith,
}
use apod.Access.Streams.{
  Streams, no_streams, acquire_sse, release_sse, max_sse_per_user, max_sse_global,
}

-- The counters that the handlers reach, with the users of the streams that are open: a handler acquires
-- a stream, ends at once if it is refused, and releases the stream once when it ends.
pub data Reachable : Streams → List String → Type 0 where
  started : Reachable no_streams []
  opened :
      {s : Streams} {users : List String} (user : String)
      → Reachable s users
      → (acquire_sse s user).1 ≡ true
      → Reachable (acquire_sse s user).0 (user ∷ users)
  refused :
      {s : Streams} {users : List String} (user : String)
      → Reachable s users
      → (acquire_sse s user).1 ≡ false
      → Reachable (acquire_sse s user).0 users
  closed :
      {s : Streams} (before : List String) (user : String) (after : List String)
      → Reachable s (before ++ user ∷ after)
      → Reachable (release_sse s user) (before ++ after)

abbrev pub streams_of : String → List String → ℕ
streams_of user users = count (λ u. u == user) users

-- The counters tell how many streams are open, in all and of each user, within the limits.
pub record Counts (s : Streams) (users : List String) : Type 0 where
  pub global : s.sse_global ≡ length users
  pub per_user : (user : String) → s.sse_per_user user ≡ streams_of user users
  pub global_bound : length users ≤ max_sse_global
  pub user_bound : (user : String) → streams_of user users ≤ max_sse_per_user

streams_of-middle :
    (user u : String) (before after : List String)
    → streams_of user (before ++ u ∷ after)
      ≡ (if u == user then 1 else 0) + streams_of user (before ++ after)
unfolding count
streams_of-middle user u [] after = refl
streams_of-middle user u (b ∷ before) after = ground (arith, streams_of-middle user u before after)

length-middle :
    (u : String) (before after : List String)
    → length (before ++ u ∷ after) ≡ 1 + length (before ++ after)
length-middle u before after =
    ground (arith, length-append before (u ∷ after), length-append before after)

Counts-opened :
    (s : Streams) (users : List String) (user : String)
    → (acquire_sse s user).1 ≡ true
    → Counts s users
    → Counts (acquire_sse s user).0 (user ∷ users)
unfolding acquire_sse count
Counts-opened s users user a c = record {
  global = ground (arith, c.global);
  per_user = λ u. ground (arith, c.per_user u, string_eq.beq_iff u user, string_eq.beq_iff user u);
  global_bound = ground (arith, c.global);
  user_bound = λ u.
      ground
        (arith, c.user_bound u, c.per_user u, string_eq.beq_iff u user, string_eq.beq_iff user u);
}

refused-same :
    (s : Streams) (user : String) → (acquire_sse s user).1 ≡ false → (acquire_sse s user).0 ≡ s
unfolding acquire_sse
refused-same s user a = ground arith

Counts-refused :
    (s : Streams) (users : List String) (user : String)
    → (acquire_sse s user).1 ≡ false
    → Counts s users
    → Counts (acquire_sse s user).0 users
Counts-refused s users user a c = subst (λ x. Counts x users) (sym (refused-same s user a)) c

Counts-closed :
    (s : Streams) (before after : List String) (user : String)
    → Counts s (before ++ user ∷ after)
    → Counts (release_sse s user) (before ++ after)
unfolding release_sse
Counts-closed s before after user c = record {
  global = ground (arith, c.global, length-middle user before after);
  per_user = λ u. ground (
    arith,
    c.per_user u,
    streams_of-middle u user before after,
    string_eq.beq_iff u user,
    string_eq.beq_iff user u,
  );
  global_bound = ground (arith, c.global_bound, length-middle user before after);
  user_bound = λ u. ground (arith, c.user_bound u, streams_of-middle u user before after);
}

-- In every state that the handlers reach, the counters tell how many streams are open, in all and of
-- each user, at most 512 are open, and at most 8 of each user: none is counted twice or forgotten.
pub Reachable-Counts : (s : Streams) (users : List String) → Reachable s users → Counts s users
unfolding count
Reachable-Counts s users started = record {
  global = refl;
  per_user = λ u. refl;
  global_bound = omega arith;
  user_bound = λ u. omega arith;
}
Reachable-Counts s users (opened {s = s'} {users = users'} user r a) =
    Counts-opened s' users' user a (Reachable-Counts s' users' r)
Reachable-Counts s users (refused {s = s'} user r a) =
    Counts-refused s' users user a (Reachable-Counts s' users r)
Reachable-Counts s users (closed {s = s'} before user after r) =
    Counts-closed s' before after user (Reachable-Counts s' (before ++ user ∷ after) r)

-- In every state that the handlers reach, a stream is granted exactly when fewer than 512 are open and
-- fewer than 8 of the user who asks.
pub acquire_iff :
    (s : Streams) (users : List String) (user : String)
    → Reachable s users
    → ((acquire_sse s user).1 ≡ true)
      ↔ ((length users < max_sse_global) × (streams_of user users < max_sse_per_user))
unfolding acquire_sse
acquire_iff s users user r =
    let c = Reachable-Counts s users r in ground (arith, c.global, c.per_user user)
