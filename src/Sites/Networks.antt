-- ===== src/Sites/Networks.antt =====
-- internal/engine/networks.go: the shared networks, by which the sites of one owner reach each other.
-- The activity log and the view of the neighbours are left out.
pub mod Tenants
pub mod Membership
pub mod Owners
pub mod Bridges
pub mod Calls
pub mod Attached
pub mod Endpoints
pub mod Opening
pub mod Leaving
pub mod History
use apod.Base.{
  ℕ, Bool, false, not, ◌&&◌, ◌||◌, String, Option, none, some, List, [], ◌∷◌, ◌++◌, Result, ok, err,
  plain, invalid, conflict, not_found, forbidden, ◌==◌, nat_eq, string_eq, if◌then◌else◌, any,
  delete_where, codes, length, leb,
}
use apod.Base.Effects.{M, ◌>>=◌, ◌>>◌, pure, fail, query, attempt, exec}
use apod.Base.Names.{all_chars}
use apod.Db.{SiteStmt}
use apod.Db.Sites.{
  SiteDb, SiteRow, NetworkRow, get_site, create_shared_network, get_shared_network,
  list_network_members, delete_shared_network, add_network_member, remove_network_member,
  list_site_networks, remove_site_from_all_networks,
}
use apod.Sites.{
  World, State, SiteCall, SiteContainer, Link, site_containers, write, try_write, read,
}
use apod.Sites.Domains.{is_alnum, is_label_char}

-- `^[a-z0-9][a-z0-9_-]{0,63}$`.
unfoldable pub is_network_name : List ℕ → Bool
unfolding all_chars
is_network_name [] = false
is_network_name (c ∷ cs) =
    is_alnum c && all_chars (λ x. is_label_char x || x == 95) cs && leb (length cs) 63

abbrev pub is_link : String → String → Link → Bool
is_link network container l = l.network == network && l.container == container

-- `if _, ok, _ := …; ok`: only a network that is found is refused.
abbrev pub refuse_existing : String → Result (Option NetworkRow) → Result (Unit {0})
refuse_existing name (err x) = ok tt
refuse_existing name (ok none) = ok tt
refuse_existing name (ok (some n)) = err (conflict "network %q already exists")

-- A network that has to be there.
abbrev pub present : Option NetworkRow → Result NetworkRow
present none = err (not_found "network %q not found")
present (some n) = ok n

-- A site may join the networks of its owner.
abbrev pub may_join : Result SiteRow → NetworkRow → Result (Unit {0})
may_join (err x) n = err (not_found "site %q not found")
may_join (ok site) n =
    if site.owner == n.owner
    then ok tt
    else err (
        forbidden
          "site %q and network %q have different owners; a shared network cannot bridge tenants")

module _ (world : World) where
  -- The loop of `connectSiteToNetwork`: a running container is attached, unless it is already.
  unfoldable pub connect_each : String → List SiteContainer → List Link → List Link
  unfolding any
  connect_each network [] links = links
  connect_each network (c ∷ cs) links = connect_each network cs (
      if c.running
        && not (world.fails (SiteCall.connect_network network c.id))
        && not (any (is_link network c.id) links)
      then links ++ record { network = network; container = c.id } ∷ []
      else links)

  -- `connectSiteToNetwork`; what fails is logged.
  unfoldable pub connect_site : String → String → State → State
  unfolding connect_each delete_where
  connect_site network domain s =
      if world.fails (SiteCall.ensure_network network)
        || world.fails (SiteCall.list_containers domain)
      then s
      else record s { links = connect_each network (site_containers domain s) s.links }

  -- An endpoint of a site's container that can be removed.
  unfoldable pub leaves : String → List SiteContainer → Link → Bool
  unfolding any
  leaves network containers l =
      l.network == network
      && any (λ (c : SiteContainer). c.id == l.container) containers
      && not (world.fails (SiteCall.disconnect_network network l.container))

  -- `disconnectSiteFromNetwork`.
  unfoldable pub disconnect_site : String → String → State → State
  unfolding leaves delete_where
  disconnect_site network domain s =
      if world.fails (SiteCall.list_containers domain)
      then s
      else record s { links = delete_where (leaves network (site_containers domain s)) s.links }

  -- The loop of `reconnectSharedNetworks`.
  unfoldable pub connect_all : String → List String → State → State
  unfolding connect_site
  connect_all domain [] s = s
  connect_all domain (n ∷ ns) s = connect_all domain ns (connect_site n domain s)

  unfoldable pub join_each : String → Result (List String) → M State (Unit {0})
  unfolding connect_all
  join_each domain (err x) = pure tt
  join_each domain (ok ns) = exec (λ s. ok (connect_all domain ns s))

  -- `reconnectSharedNetworks`.
  unfoldable pub reconnect : String → M State (Unit {0})
  unfolding join_each list_site_networks
  reconnect domain = do
    networks ← attempt (read (list_site_networks world.down domain))
    join_each domain networks

  -- The loops of `leaveAllSharedNetworks` and of `DeleteSharedNetwork`.
  unfoldable pub disconnect_all : String → List String → State → State
  unfolding disconnect_site
  disconnect_all domain [] s = s
  disconnect_all domain (n ∷ ns) s = disconnect_all domain ns (disconnect_site n domain s)

  unfoldable pub disconnect_members : String → List String → State → State
  unfolding disconnect_site
  disconnect_members network [] s = s
  disconnect_members network (m ∷ ms) s =
      disconnect_members network ms (disconnect_site network m s)

  -- The bridge of `CreateSharedNetwork`, without which the record is removed again.
  unfoldable pub open_bridge : String → M State (Unit {0})
  unfolding delete_shared_network
  open_bridge name =
      if world.fails (SiteCall.ensure_network name)
      then (do
        try_write (delete_shared_network world.down name)
        fail (plain "create network bridge: %w"))
      else pure tt

  -- `CreateSharedNetwork`.
  unfoldable pub open_network : String → String → M State (Unit {0})
  unfolding is_network_name get_shared_network create_shared_network open_bridge
  open_network name owner = do
    query (λ s.
        if is_network_name (codes name)
        then ok tt
        else err (invalid "invalid network name %q: use letters, digits, _ or -"))
    existing ← attempt (read (get_shared_network world.down name))
    query (λ s. refuse_existing name existing)
    write (create_shared_network world.down name owner)
    open_bridge name

  -- The network, with its members.
  unfoldable pub find_network : String → M State NetworkRow
  unfolding get_shared_network list_network_members
  find_network name = do
    found ← read (get_shared_network world.down name)
    n ← query (λ s. present found)
    members ← read (list_network_members world.down name)
    pure n

  -- `DeleteSharedNetwork`.
  unfoldable pub close_network : String → M State (Unit {0})
  unfolding find_network list_network_members disconnect_members delete_shared_network
  close_network name = do
    n ← find_network name
    members ← read (list_network_members world.down name)
    exec (λ s. ok (disconnect_members name members s))
    write (delete_shared_network world.down name)

  -- `AddSiteToNetwork`.
  unfoldable pub join_network : String → String → M State (Unit {0})
  unfolding find_network get_site add_network_member connect_site
  join_network name domain = do
    n ← find_network name
    site ← attempt (read (get_site world.down domain))
    query (λ s. may_join site n)
    write (add_network_member world.down name domain)
    exec (λ s. ok (connect_site name domain s))

  -- `RemoveSiteFromNetwork`.
  unfoldable pub leave_network : String → String → M State (Unit {0})
  unfolding remove_network_member disconnect_site
  leave_network name domain = do
    write (remove_network_member world.down name domain)
    exec (λ s. ok (disconnect_site name domain s))

  -- `leaveAllSharedNetworks`: where the networks cannot be listed, nothing happens.
  unfoldable pub leave_each : String → Result (List String) → M State (Unit {0})
  unfolding disconnect_all remove_site_from_all_networks
  leave_each domain (err x) = pure tt
  leave_each domain (ok ns) = do
    exec (λ s. ok (disconnect_all domain ns s))
    try_write (remove_site_from_all_networks world.down domain)

  unfoldable pub leave_all_networks : String → M State (Unit {0})
  unfolding list_site_networks leave_each
  leave_all_networks domain = do
    networks ← attempt (read (list_site_networks world.down domain))
    leave_each domain networks
