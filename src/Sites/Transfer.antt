-- ===== src/Sites/Transfer.antt =====
-- internal/engine/user.go: `TransferSite`. The site's files, the disk quotas and the activity log are left out.
pub mod Membership
pub mod Bridges
use apod.Base.{not, ◌||◌, String, Result, ok, err, not_found, ◌==◌, string_eq, if◌then◌else◌}
use apod.Base.Effects.{M, ◌>>=◌, ◌>>◌, pure, query}
use apod.Db.Sites.{SiteRow, get_site, update_site_owner, user_known}
use apod.Sites.{World, State, write, read}
use apod.Sites.Networks.{leave_all_networks}

module _ (world : World) where
  -- A new owner has to be a user, or nobody.
  abbrev pub known_owner : String → State → Result (Unit {0})
  known_owner new_owner s =
      if new_owner == "" || user_known world.down new_owner s.db
      then ok tt
      else err (not_found "user %q not found")

  -- `if newOwner != oldOwner`.
  unfoldable pub detach : String → String → SiteRow → M State (Unit {0})
  unfolding leave_all_networks
  detach domain new_owner site =
      if new_owner == site.owner then pure tt else leave_all_networks world domain

  -- `TransferSite`.
  unfoldable pub transfer_site : String → String → M State (Unit {0})
  unfolding get_site user_known detach update_site_owner
  transfer_site domain new_owner = do
    site ← read (get_site world.down domain)
    query (known_owner new_owner)
    detach domain new_owner site
    write (update_site_owner world.down domain new_owner)
