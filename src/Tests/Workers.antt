-- ===== src/Tests/Workers.antt =====
-- A worker with a paused first replica and a second one that runs.
use apod.Base.{
  ℕ, ◌≤◌, ◌<◌, ◌≡◌, refl, Bool, true, false, String, none, some, [], ◌∷◌, ok, err, conflict, ◌>>=◌,
  ◌==◌, nat_eq, string_eq, if◌then◌else◌, find, any, update_where, delete_where, arith, decimal,
  decimal_from, digit,
}
use apod.Process.{
  Docker, Call, replica_container_name, reconcile_service, container_exists, start_container,
  stop_container, remove_container, create_container, ensure_replica, ensure_replicas, remove_from,
  remove_extras, scale_to, container_inspect, effective_role,
}
use apod.Process.Calls.{Runs, exists_in}
use apod.Process.Reconciliation.{reconcile_service_sound}
use apod.Process.Success.{reconcile_service-ok}
use apod.Process.Locks.{LockState, new_lock_manager, acquire, release}
use apod.Process.Scaling.{
  Sites, World, max_replicas, set_process_replicas, get_process_replicas, site_services,
  check_worker, reconcile_and_store, scale_locked, scale_process,
}
use apod.Process.Scaling.Locking.{scale_process-locks}
use apod.Process.Scaling.Stored.{scale_process_sound}

abbrev never : Call → Bool
never call = false

abbrev docker : Docker
docker =
    record { name = "apod-a.org-queue"; running = false }
    ∷ record { name = "apod-a.org-queue-1"; running = true }
    ∷ []

scaled : (reconcile_service never "a.org" "queue" 3 docker).1 ≡ ok tt
unfolding reconcile_service scale_to ensure_replicas ensure_replica remove_extras remove_from
    container_exists start_container stop_container remove_container create_container
    replica_container_name decimal decimal_from digit any update_where delete_where
scaled = refl

reconcile_service_sound_example :
    ((i : ℕ)
      → i < 3
      → Runs
          (replica_container_name "a.org" "queue" i)
          (reconcile_service never "a.org" "queue" 3 docker).0)
    × (never (container_inspect (replica_container_name "a.org" "queue" 3)) ≡ false
        → exists_in
            (replica_container_name "a.org" "queue" 3)
            (reconcile_service never "a.org" "queue" 3 docker).0
          ≡ false)
reconcile_service_sound_example =
    reconcile_service_sound never "a.org" "queue" 3 docker (omega arith) scaled

first_replica : exists_in (replica_container_name "a.org" "queue" 0) docker ≡ true
unfolding replica_container_name any
first_replica = refl

reconcile_service-ok_example : (reconcile_service never "a.org" "queue" 3 docker).1 ≡ ok tt
reconcile_service-ok_example =
    reconcile_service-ok never (λ call. refl) "a.org" "queue" 3 docker first_replica

abbrev world : World
world = record {
  fails = never;
  sites_down = false;
  scaling_down = false;
  load = λ driver. ok (record { name = "queue"; role = "worker" } ∷ []);
  now = 7;
}

abbrev sites : Sites
sites = record {
  locks = new_lock_manager;
  docker = docker;
  sites = record { domain = "a.org"; driver = "laravel" } ∷ [];
  scaling = [];
}

sites_scaled : (scale_process world "a.org" "queue" 2 sites).1 ≡ ok tt
unfolding scale_process scale_locked reconcile_and_store site_services check_worker
    set_process_replicas effective_role acquire release reconcile_service scale_to ensure_replicas
    ensure_replica remove_extras remove_from container_exists start_container stop_container
    remove_container create_container replica_container_name decimal decimal_from digit any find
    update_where delete_where
sites_scaled = refl

scale_process_sound_example :
    let s' = (scale_process world "a.org" "queue" 2 sites).0 in
    (2 ≤ max_replicas)
    × (sites.locks "a.org" ≡ none)
    × ((site_services world "a.org" "queue" sites.sites >>= check_worker world "a.org" "queue")
        ≡ ok tt)
    × (get_process_replicas world "a.org" "queue" s'.scaling ≡ ok (some 2))
    × ((i : ℕ) → i < 2 → Runs (replica_container_name "a.org" "queue" i) s'.docker)
scale_process_sound_example = scale_process_sound world "a.org" "queue" 2 sites sites_scaled

abbrev busy : Sites
busy = record sites {
  locks = λ k. if k == "a.org" then some (record { operation = "deploying"; since = 1 }) else none;
}

scale_process-locks_example :
    ((k : String) → (scale_process world "a.org" "queue" 2 busy).0.locks k ≡ busy.locks k)
    × ((st : LockState)
        → busy.locks "a.org" ≡ some st
        → 2 ≤ max_replicas
        → scale_process world "a.org" "queue" 2 busy
          ≡ (busy, err (conflict "%s is busy: %s (started %s ago) — try again in a moment")))
scale_process-locks_example = scale_process-locks world "a.org" "queue" 2 busy
