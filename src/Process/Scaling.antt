-- ===== src/Process/Scaling.antt =====
-- internal/engine/process.go and internal/db/process_scaling.go: the scaling of a worker under the lock of
-- its site. The YAML drivers are a parameter, and so is which database calls fail; the networks that new
-- replicas join and the activity log are left out.
pub mod Locking
pub mod Stored
use apod.Base.{
  ℕ, Bool, not, ◌&&◌, String, Option, none, some, List, [], ◌∷◌, ◌++◌, map, Result, ok, err, plain,
  wrap, invalid, not_found, ◌>>=◌, ◌==◌, nat_eq, string_eq, if◌then◌else◌, find, any, update_where,
  ltb,
}
use mathlib.Core.Option
use apod.Process.{
  Docker, Call, effective_role, scalable_role, reconcile_service, replica_container_name,
}
use apod.Process.Locks.{LockManager, acquire, release}

pub record Scaling : Type 0 where
  pub site_domain : String
  pub service : String
  pub replicas : ℕ

-- A row of `sites`: its domain and its driver.
pub record Site : Type 0 where
  pub domain : String
  pub driver : String

-- A service of a driver: its name and its role.
pub record DriverService : Type 0 where
  pub name : String
  pub role : String

pub record Sites : Type 0 where
  pub locks : LockManager
  pub docker : Docker
  pub sites : List Site
  pub scaling : List Scaling

-- What the calls meet: which Docker and database calls fail, the drivers, and the clock.
pub record World : Type 0 where
  pub fails : Call → Bool
  pub sites_down : Bool
  pub scaling_down : Bool
  pub load : String → Result (List DriverService)
  pub now : ℕ

abbrev pub max_replicas : ℕ
max_replicas = 20

abbrev pub is_for : String → String → Scaling → Bool
is_for domain service row = row.site_domain == domain && row.service == service

module _ (world : World) (domain service : String) where
  -- `SetProcessReplicas`: an insert, or an update of the row that is there.
  unfoldable pub set_process_replicas : ℕ → List Scaling → Result (List Scaling)
  unfolding any update_where
  set_process_replicas n rows =
      if world.scaling_down
      then err (wrap "set process replicas: %w" (plain "sql"))
      else if any (is_for domain service) rows
      then ok (update_where (is_for domain service) (λ r. record r { replicas = n }) rows)
      else ok (rows ++ record { site_domain = domain; service = service; replicas = n } ∷ [])

  -- `GetProcessReplicas`; `none` is the source's `ok == false`.
  unfoldable pub get_process_replicas : List Scaling → Result (Option ℕ)
  unfolding find
  get_process_replicas rows =
      if world.scaling_down
      then err (plain "sql")
      else ok (Option.map (λ r. r.replicas) (find (is_for domain service) rows))

  -- The services of a site's driver, with the checks of `ScaleProcess` before it.
  unfoldable pub site_services : List Site → Result (List DriverService)
  unfolding find
  site_services sites =
      if world.sites_down
      then err (not_found "site %q not found")
      else elim (find (λ s. s.domain == domain) sites) [
        | none ↦ err (not_found "site %q not found")
        | some s ↦ world.load s.driver
      ]

  -- Whether the driver has the service, as a scalable worker.
  unfoldable pub check_worker : List DriverService → Result (Unit {0})
  unfolding find effective_role
  check_worker services = elim (find (λ s. s.name == service) services) [
    | none ↦ err (not_found "service %q not found in driver %q")
    | some s ↦
        if scalable_role (effective_role service s.role)
        then ok tt
        else err (invalid "service %q is not a scalable worker")
  ]

  -- The reconciliation and, if it succeeds, the stored count.
  unfoldable pub reconcile_and_store : ℕ → Sites → Sites × Result (Unit {0})
  unfolding reconcile_service set_process_replicas
  reconcile_and_store n s =
      let (d, r) = reconcile_service world.fails domain service n s.docker in
      elim r [
        | err x ↦ (record s { docker = d }, err x)
        | ok u ↦ elim (set_process_replicas n s.scaling) [
          | err x ↦ (record s { docker = d }, err x)
          | ok rows ↦ (record s { docker = d; scaling = rows }, ok tt)
        ]
      ]

  -- `ScaleProcess` between taking the lock and giving it back.
  unfoldable pub scale_locked : ℕ → Sites → Sites × Result (Unit {0})
  unfolding site_services check_worker reconcile_and_store
  scale_locked n s = elim (site_services s.sites >>= check_worker) [
    | err x ↦ (s, err x)
    | ok u ↦ reconcile_and_store n s
  ]

  -- `ScaleProcess`. A negative count, which the source refuses like one above the maximum, is no
  -- natural number.
  unfoldable pub scale_process : ℕ → Sites → Sites × Result (Unit {0})
  unfolding acquire release scale_locked
  scale_process n s =
      if ltb max_replicas n
      then (s, err (invalid "replicas must be between 0 and %d"))
      else let taken = acquire domain "scaling" world.now s.locks in
        elim taken.1 [
          | err x ↦ (s, err x)
          | ok u ↦
              let done = scale_locked n (record s { locks = taken.0 }) in
              (record (done.0) { locks = release domain (done.0).locks }, done.1)
        ]
