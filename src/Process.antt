-- ===== src/Process.antt =====
-- internal/engine/process.go and safety.go: the replicas of a worker and the lock of a site. The
-- containers are what the Docker daemon keeps, a list of names with a flag for running ones; the calls
-- of docker.go that the program makes are functions on it with the daemon's documented behaviour, and
-- a predicate says which calls fail.
pub mod Names
pub mod Calls
pub mod Replicas
pub mod Extras
pub mod Reconciliation
pub mod Template
pub mod Success
pub mod Locks
pub mod Scaling
use apod.Base.{
  ℕ, zero, suc, ◌+◌, ◌-◌, Bool, true, false, not, ◌&&◌, ◌||◌, String, Option, none, some, List, [],
  ◌∷◌, ◌++◌, Result, ok, err, plain, wrap, wrapping, invalid, ◌==◌, nat_eq, string_eq,
  if◌then◌else◌, any, update_where, delete_where, length, ltb, ◌<>◌, decimal,
}

pub record Container : Type 0 where
  pub name : String
  pub running : Bool

abbrev pub Docker : Type 0
Docker = List Container

-- A call of the Docker API, on a container.
pub data Call : Type 0 where
  container_inspect container_start container_stop container_remove container_create
        replica_inspect :
      String → Call

abbrev pub is_container : String → Container → Bool
is_container name c = c.name == name

-- `effectiveRole`.
unfoldable pub effective_role : String → String → String
effective_role service role =
    if not (role == "") then role else if service == "app" then "web" else ""

-- `scalableRole`.
abbrev pub scalable_role : String → Bool
scalable_role role = role == "worker"

-- `resolveReplicas`. The counts of the source are integers; a negative one is 0 here, and the source
-- treats it as it treats 0.
unfoldable pub resolve_replicas : String → ℕ → Option ℕ → ℕ
resolve_replicas role driver_replicas override =
    if not (role == "worker")
    then 1
    else elim override [ some n ↦ n | none ↦ if ltb driver_replicas 1 then 1 else driver_replicas ]

-- `replicaContainerName`.
unfoldable pub replica_container_name : String → String → ℕ → String
unfolding decimal
replica_container_name domain service i =
    let base = "apod-" <> (domain <> ("-" <> service)) in
    if i == 0 then base else base <> ("-" <> decimal i)

module _ (fails : Call → Bool) where
  -- `ContainerExists`, whose error every caller takes for `false`.
  unfoldable pub container_exists : String → Docker → Bool
  unfolding any
  container_exists name d = not (fails (container_inspect name)) && any (is_container name) d

  -- `StartContainer`.
  unfoldable pub start_container : String → Docker → Docker × Result (Unit {0})
  unfolding any update_where
  start_container name d =
      if fails (container_start name) || not (any (is_container name) d)
      then (d, err (plain "start container"))
      else (update_where (is_container name) (λ c. record c { running = true }) d, ok tt)

  -- `StopContainer`, whose error every caller ignores.
  unfoldable pub stop_container : String → Docker → Docker
  unfolding update_where
  stop_container name d =
      if fails (container_stop name)
      then d
      else update_where (is_container name) (λ c. record c { running = false }) d

  -- `RemoveContainer`, by force.
  unfoldable pub remove_container : String → Docker → Docker × Result (Unit {0})
  unfolding any delete_where
  remove_container name d =
      if fails (container_remove name) || not (any (is_container name) d)
      then (d, err (plain "remove container"))
      else (delete_where (is_container name) d, ok tt)

  -- `CreateContainer`: a new container is not running, and a name is used once.
  unfoldable pub create_container : String → Docker → Docker × Result (Unit {0})
  unfolding any
  create_container name d =
      if fails (container_create name) || any (is_container name) d
      then (d, err (plain "create container"))
      else (d ++ record { name = name; running = false } ∷ [], ok tt)

  module _ (domain service : String) where
    -- The loop of `removeExtras`. Each round that goes on removes a container, so the number of
    -- containers and one more round are fuel enough.
    unfoldable pub remove_from : ℕ → ℕ → Docker → Docker × Result (Unit {0})
    unfolding container_exists stop_container remove_container
    remove_from zero i d = (d, err (plain "out of fuel"))
    remove_from (suc fuel) i d =
        let removed =
          remove_container (replica_container_name domain service i)
            (stop_container (replica_container_name domain service i) d) in
        let rest = remove_from fuel (i + 1) removed.0 in
        if not (container_exists (replica_container_name domain service i) d)
        then (d, ok tt)
        else elim removed.1 [
          | err x ↦ (removed.0, err (wrap "remove replica %s: %w" x))
          | ok u ↦ rest
        ]

    -- `removeExtras`.
    unfoldable pub remove_extras : ℕ → Docker → Docker × Result (Unit {0})
    remove_extras from d = remove_from (length d + 1) (if ltb from 1 then 1 else from) d

    -- One round of the loop that starts the replicas: the one that exists, or a new one.
    unfoldable pub ensure_replica : ℕ → Docker → Docker × Result (Unit {0})
    unfolding container_exists start_container create_container
    ensure_replica i d =
        if container_exists (replica_container_name domain service i) d
        then (
          (start_container (replica_container_name domain service i) d).0,
          wrapping "start replica %s: %w"
              (start_container (replica_container_name domain service i) d).1,
        )
        else elim (create_container (replica_container_name domain service i) d).1 [
          | err x ↦ (
            (create_container (replica_container_name domain service i) d).0,
            err (wrap "create replica %s: %w" x),
          )
          | ok u ↦
              let started =
                start_container (replica_container_name domain service i)
                  (create_container (replica_container_name domain service i) d).0 in
              (started.0, wrapping "start replica %s: %w" started.1)
        ]

    -- The loop, for the replicas `i` to `i + n - 1`.
    unfoldable pub ensure_replicas : ℕ → ℕ → Docker → Docker × Result (Unit {0})
    unfolding ensure_replica
    ensure_replicas zero i d = (d, ok tt)
    ensure_replicas (suc n) i d =
        let rest = ensure_replicas n (i + 1) (ensure_replica i d).0 in
        elim (ensure_replica i d).1 [ err x ↦ ((ensure_replica i d).0, err x) | ok u ↦ rest ]

    -- The part of `reconcileService` for a positive count.
    unfoldable pub scale_to : ℕ → Docker → Docker × Result (Unit {0})
    unfolding start_container ensure_replicas remove_extras
    scale_to desired d =
        let base = start_container (replica_container_name domain service 0) d in
        let grown = ensure_replicas (desired - 1) 1 base.0 in
        let shrunk = remove_extras desired grown.0 in
        elim base.1 [
          | err x ↦ (base.0, err (wrap "start base replica %s: %w" x))
          | ok u ↦
              if fails (replica_inspect (replica_container_name domain service 0))
              then (base.0, err (wrap "inspect base replica of %s: %w" (plain "inspect")))
              else elim grown.1 [ err x ↦ (grown.0, err x) | ok v ↦ shrunk ]
        ]

    -- `reconcileService`. The configuration that new replicas copy from the first is left out.
    unfoldable pub reconcile_service : ℕ → Docker → Docker × Result (Unit {0})
    unfolding container_exists stop_container remove_extras scale_to
    reconcile_service desired d =
        if not (container_exists (replica_container_name domain service 0) d)
        then (
          d,
          err (
              invalid
                "worker %q has no base container to scale from; redeploy the site to recreate it"),
        )
        else if desired == 0
        then remove_extras 1 (stop_container (replica_container_name domain service 0) d)
        else scale_to desired d
