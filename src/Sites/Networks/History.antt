-- ===== src/Sites/Networks/History.antt =====
-- Shared networks over a history of calls: created and deleted, joined and left, and sites that change hands.
use apod.Base.{◌≡◌, true, false, some, find, String, List, [], ◌∷◌}
use apod.Db.{SiteStmt}
use apod.Db.Sites.{SiteRow, NetworkRow, has_domain, has_name}
use apod.Sites.{World, State}
use apod.Sites.Networks.{open_network, close_network, join_network, leave_network}
use apod.Sites.Networks.Tenants.{IsOneTenant}
use apod.Sites.Networks.Calls.{
  open_network-Preserves, close_network-Preserves, join_network-Preserves, leave_network-Preserves,
}
use apod.Sites.Networks.Bridges.{is_attached, Disconnects}
use apod.Sites.Networks.Attached.{Bridged}
use apod.Sites.Networks.Opening.{open_network-Bridged, close_network-Bridged}
use apod.Sites.Networks.Leaving.{join_network-Bridged, leave_network-Bridged}
use apod.Sites.Transfer.{transfer_site}
use apod.Sites.Transfer.Bridges.{transfer_site-Bridged}
use apod.Sites.Transfer.Membership.{transfer_site-OneTenant}

-- A call about the shared networks, or the transfer of a site.
pub data NetworkCall : Type 0 where
  create_call add_call remove_call transfer_call : String → String → NetworkCall
  delete_call : String → NetworkCall

-- The state after a call, whatever it answers.
unfoldable pub after_call : World → NetworkCall → State → State
unfolding open_network close_network join_network leave_network transfer_site
after_call world (NetworkCall.create_call name owner) s = (open_network world name owner s).0
after_call world (NetworkCall.delete_call name) s = (close_network world name s).0
after_call world (NetworkCall.add_call name domain) s = (join_network world name domain s).0
after_call world (NetworkCall.remove_call name domain) s = (leave_network world name domain s).0
after_call world (NetworkCall.transfer_call domain owner) s = (transfer_site world domain owner s).0

-- The state after several calls.
unfoldable pub after_calls : World → List NetworkCall → State → State
unfolding after_call
after_calls world [] s = s
after_calls world (c ∷ cs) s = after_calls world cs (after_call world c s)

-- The rows and the bridges: a network and the sites in it have one owner, and only sites in it are on its
-- bridge.
pub record Separated (s : State) : Type 0 where
  pub tenants : IsOneTenant s
  pub bridged : Bridged s

module _ (world : World) (list_up : world.down SiteStmt.list_site_networks ≡ false)
    (remove_up : world.down SiteStmt.remove_site_from_all_networks ≡ false) where
  after_call-OneTenant :
      (c : NetworkCall) (s : State) → IsOneTenant s → IsOneTenant (after_call world c s)
  unfolding after_call
  after_call-OneTenant (NetworkCall.create_call name owner) s p =
      (open_network-Preserves world name owner).preserved s p
  after_call-OneTenant (NetworkCall.delete_call name) s p =
      (close_network-Preserves world name).preserved s p
  after_call-OneTenant (NetworkCall.add_call name domain) s p =
      (join_network-Preserves world name domain).preserved s p
  after_call-OneTenant (NetworkCall.remove_call name domain) s p =
      (leave_network-Preserves world name domain).preserved s p
  after_call-OneTenant (NetworkCall.transfer_call domain owner) s p =
      transfer_site-OneTenant world domain owner list_up remove_up s p

  module _ (up : Disconnects world) where
    after_call-Bridged :
        (c : NetworkCall) (s : State) → Separated s → Bridged (after_call world c s)
    unfolding after_call
    after_call-Bridged (NetworkCall.create_call name owner) s p =
        open_network-Bridged world name owner s p.tenants p.bridged
    after_call-Bridged (NetworkCall.delete_call name) s p =
        (close_network-Bridged world up name).preserved s p.bridged
    after_call-Bridged (NetworkCall.add_call name domain) s p =
        (join_network-Bridged world up name domain).preserved s p.bridged
    after_call-Bridged (NetworkCall.remove_call name domain) s p =
        (leave_network-Bridged world up name domain).preserved s p.bridged
    after_call-Bridged (NetworkCall.transfer_call domain owner) s p =
        (transfer_site-Bridged world domain owner up).preserved s p.bridged

    separated :
        (cs : List NetworkCall) (s : State) → Separated s → Separated (after_calls world cs s)
    unfolding after_calls
    separated [] s p = p
    separated (c ∷ cs) s p = separated cs (after_call world c s) (record {
      tenants = after_call-OneTenant c s p.tenants;
      bridged = after_call-Bridged c s p;
    })

    -- A shared network bridges no two tenants: whatever networks are created, deleted, joined and left and
    -- whatever sites change hands, one call after another and whatever each answers, a network and the sites in it
    -- have one owner, and only sites in it have a container on its bridge, so that a site with a container on the
    -- bridge has the owner of the network; if that is so at first, no identifier is one of two sites' containers,
    -- the statements by which a site leaves its networks run, and the calls of Docker by which it leaves a bridge
    -- do not fail.
    pub after_calls-Separated :
        (cs : List NetworkCall) (s : State)
        → Separated s
        → Separated (after_calls world cs s)
          × ((network domain : String) (n : NetworkRow) (site : SiteRow)
              → is_attached network domain (after_calls world cs s) ≡ true
              → find (has_name network) (after_calls world cs s).db.networks ≡ some n
              → find (has_domain domain) (after_calls world cs s).db.sites ≡ some site
              → site.owner ≡ n.owner)
    after_calls-Separated cs s p =
        let q = separated cs s p in
        (
          q,
          λ network domain n site a f g.
              q.tenants.same_owner network domain n site (q.bridged.member network domain a) f g,
        )
