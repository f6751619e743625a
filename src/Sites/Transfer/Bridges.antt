-- ===== src/Sites/Transfer/Bridges.antt =====
-- What a transfer leaves of the containers on the bridges of shared networks.
use apod.Base.{◌≡◌, sym, subst, inl, inr, String, ok, ◌==◌, string_eq, any, arith, Bool-cases, true}
use apod.Base.Effects.{Preserves, query-Preserves, bind-Preserves, then-Preserves}
use apod.Db.Sites.{SiteDb, SiteRow, is_member, get_site, update_site_owner}
use apod.Sites.{World, write}
use apod.Sites.Networks.Bridges.{Disconnects}
use apod.Sites.Networks.Attached.{Bridged, write-Bridged}
use apod.Sites.Networks.Leaving.{leave_all_networks-Bridged}
use apod.Sites.Transfer.{known_owner, detach, transfer_site}

module _ (world : World) (domain new_owner : String) (up : Disconnects world) where
  detach-Bridged : (site : SiteRow) → Preserves Bridged (detach world domain new_owner site)
  unfolding detach
  detach-Bridged site = elim (Bool-cases (new_owner == site.owner)) [
    | inl same ↦ rw same (query-Preserves Bridged (λ s. ok tt))
    | inr other ↦ rw other (leave_all_networks-Bridged world up domain)
  ]

  owner-Bridged : Preserves Bridged (write (update_site_owner world.down domain new_owner))
  owner-Bridged =
      write-Bridged (update_site_owner world.down domain new_owner)
        (λ d d' n m e k. subst (λ x. any (is_member n m) x ≡ true) (sym (same d d' e)) k)
    where
      same :
          (d d' : SiteDb)
          → update_site_owner world.down domain new_owner d ≡ ok d'
          → d'.members ≡ d.members
      same d d' e = unfold update_site_owner in ground arith

  pub transfer_site-Bridged : Preserves Bridged (transfer_site world domain new_owner)
  unfolding transfer_site
  transfer_site-Bridged =
      bind-Preserves Bridged (query-Preserves Bridged (λ s. get_site world.down domain s.db))
        (λ site.
          then-Preserves Bridged (query-Preserves Bridged (known_owner world new_owner))
            (then-Preserves Bridged (detach-Bridged site) owner-Bridged))
