-- ===== src/Sites.antt =====
-- internal/engine/engine.go, domain.go, networks.go and user.go: the life of a site, from the claim of its
-- domain to its removal, its alias domains, its owner and the shared networks that it joins. The engine's
-- state is the locks, and the tables and containers that an operation under a lock changes.
-- What Docker, git, the file system and Traefik answer is a parameter, and so is which statements fail.
pub mod Domains
pub mod Params
pub mod Frame
pub mod Locking
pub mod Distinct
pub mod Power
pub mod Creation
pub mod Destruction
pub mod Networks
pub mod Aliases
pub mod Transfer
use apod.Base.{
  ℕ, Bool, false, String, List, Result, ok, err, ◌==◌, nat_eq, string_eq, not, ◌&&◌, delete_where,
}
use apod.Base.Effects.{M, exec, best_effort, query}
use apod.Db.{SiteStmt}
use apod.Db.Sites.{SiteDb, SiteRow}
use apod.Process.Locks.{LockManager, acquire, release}

-- A container with the label of its site.
pub record SiteContainer : Type 0 where
  pub id : String
  pub site : String
  pub running : Bool

-- A call of Docker about a site's containers.
pub data SiteCall : Type 0 where
  list_containers start_container stop_container remove_container : String → SiteCall
  compose_start compose_stop compose_down ensure_network : String → SiteCall
  connect_network disconnect_network : String → String → SiteCall

-- A parameter that a driver declares.
pub record Parameter : Type 0 where
  pub key : String
  pub kind : String
  pub options : List String

-- What `drivers.Load` yields, as far as the life of a site depends on it.
pub record Driver : Type 0 where
  pub is_compose : Bool
  pub parameters : List Parameter

pub record World : Type 0 where
  pub down : SiteStmt → Bool
  pub fails : SiteCall → Bool
  pub load : String → Result Driver
  -- Whether `strconv.ParseFloat` reads a text.
  pub is_float : String → Bool
  -- What the provisioning of a domain answers before and after the secrets are stored, and whether it sets
  -- the status to "error" when it fails.
  pub prepare : String → Result (Unit {0})
  pub launch : String → Result (Unit {0})
  pub marks_error : Bool
  -- Whether the files of a site can be deleted.
  pub purge : String → Result (Unit {0})
  -- Whether the routing of a site's aliases can be written.
  pub route : String → Result (Unit {0})
  pub now : ℕ

-- An endpoint of a container on the bridge of a shared network, which is told by the network's name. One of
-- a container that is gone says nothing.
pub record Link : Type 0 where
  pub network : String
  pub container : String

pub record State : Type 0 where
  pub db : SiteDb
  pub containers : List SiteContainer
  pub links : List Link

pub record SiteEngine : Type 0 where
  pub locks : LockManager
  pub state : State

abbrev pub of_site : String → SiteContainer → Bool
of_site domain c = c.site == domain

-- The containers of a site, by Docker's label filter.
abbrev pub site_containers : String → State → List SiteContainer
site_containers domain s = delete_where (λ c. not (of_site domain c)) s.containers

-- Docker's identifiers are unique; a container is told by its identifier and its label.
abbrev pub is_that : SiteContainer → SiteContainer → Bool
is_that c x = x.id == c.id && x.site == c.site

-- A statement on the tables of the state.
abbrev pub statement : (SiteDb → Result SiteDb) → State → Result State
statement w s = elim (w s.db) [ ok d ↦ ok (record s { db = d }) | err x ↦ err x ]

-- A write whose error is the caller's, and one whose error is ignored.
abbrev pub write : (SiteDb → Result SiteDb) → M State (Unit {0})
write w = exec (statement w)

abbrev pub try_write : (SiteDb → Result SiteDb) → M State (Unit {0})
try_write w = best_effort (statement w)

abbrev pub read {ℓ} : {A : Type ℓ} → (SiteDb → Result A) → M State A
read q = query (λ s. q s.db)

-- Whether the driver of a site, if both can be read, is a compose driver.
abbrev pub is_compose_site : World → Result SiteRow → Bool
is_compose_site world (err x) = false
is_compose_site world (ok s) = elim (world.load s.driver) [ err x ↦ false | ok d ↦ d.is_compose ]

-- `Acquire`, and `defer Release`: the body runs only while the lock is held.
unfoldable pub with_lock {ℓ} : {A : Type ℓ} → ℕ → String → String → M State A → M SiteEngine A
unfolding acquire release
with_lock now domain operation body e =
    let taken = acquire domain operation now e.locks in
    elim taken.1 [
      | err x ↦ (e, err x)
      | ok u ↦
          let done = body e.state in
          (record { locks = release domain taken.0; state = done.0 }, done.1)
    ]
