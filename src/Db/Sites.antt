-- ===== src/Db/Sites.antt =====
-- internal/db/sites.go, domains.go and networks.go, and the deletions by domain of operations.go,
-- secrets.go, process_scaling.go and uptime.go: the tables about sites. The nine tables of
-- `childTablesByDomain` are one list of rows that say which table they are of.
use apod.Base.{
  ℕ, ◌+◌, Bool, not, ◌&&◌, String, Option, none, some, List, [], ◌∷◌, ◌++◌, map, Result, ok, err,
  plain, ◌==◌, nat_eq, string_eq, if◌then◌else◌, find, any, update_where, delete_where,
}
use apod.Db.{SiteStmt, failed}

-- models.Site, without its environment and times.
pub record SiteRow : Type 0 where
  pub id : ℕ
  pub domain : String
  pub driver : String
  pub status : String
  pub ram : String
  pub cpu : String
  pub storage : String
  pub repo : String
  pub branch : String
  pub owner : String

-- A row of `domains`: a domain that is routed to a site.
pub record DomainRow : Type 0 where
  pub site_id : ℕ
  pub domain : String
  pub is_primary : Bool

pub record NetworkRow : Type 0 where
  pub name : String
  pub owner : String

pub record MemberRow : Type 0 where
  pub network : String
  pub site_domain : String

-- A row of a table that is keyed by the domain of a site; `kind` is the table.
pub record ChildRow : Type 0 where
  pub kind : String
  pub site_domain : String

pub record SiteDb : Type 0 where
  pub sites : List SiteRow
  pub next_site_id : ℕ
  pub domains : List DomainRow
  pub networks : List NetworkRow
  pub members : List MemberRow
  pub children : List ChildRow
  -- `uptime_checks`, `operations`, `process_scaling` and `site_secrets`, in the same form.
  pub others : List ChildRow
  -- The names in `users`.
  pub user_names : List String

-- `WHERE domain = ?`.
abbrev pub has_domain : String → SiteRow → Bool
has_domain domain s = s.domain == domain

abbrev pub is_of : String → ChildRow → Bool
is_of domain r = r.site_domain == domain

abbrev pub is_member : String → String → MemberRow → Bool
is_member network domain m = m.network == network && m.site_domain == domain

abbrev pub member_domain : String → MemberRow → Bool
member_domain domain m = m.site_domain == domain

abbrev pub has_name : String → NetworkRow → Bool
has_name name n = n.name == name

module _ (down : SiteStmt → Bool) where
  -- A statement that runs unless it is made to fail.
  abbrev pub run {ℓ} : {A : Type ℓ} → SiteStmt → String → Result A → Result A
  run s msg r = if down s then failed msg else r

  -- An UPDATE or DELETE of the row of a domain that has to be there.
  abbrev pub on_site : SiteStmt → String → String → (SiteDb → SiteDb) → SiteDb → Result SiteDb
  on_site s msg domain f d =
      run s msg
        (if any (has_domain domain) d.sites then ok (f d) else err (plain "site %q not found"))

  -- `CreateSite`: the domain is UNIQUE, the key counts up, and the status is 'creating'.
  unfoldable pub create_site : SiteRow → SiteDb → Result SiteDb
  unfolding any
  create_site site d = run SiteStmt.create_site "insert site: %w" (
      if any (has_domain site.domain) d.sites
      then failed "insert site: %w"
      else ok (record d {
        sites = d.sites ++ record site { id = d.next_site_id; status = "creating" } ∷ [];
        next_site_id = d.next_site_id + 1;
      }))

  -- `GetSite`.
  unfoldable pub get_site : String → SiteDb → Result SiteRow
  unfolding find
  get_site domain d =
      run SiteStmt.get_site "query site: %w" (elim (find (has_domain domain) d.sites) [
        | none ↦ err (plain "site %q not found")
        | some s ↦ ok s
      ])

  -- `ListSites`; the order is left out.
  unfoldable pub list_sites : SiteDb → Result (List SiteRow)
  list_sites d = run SiteStmt.list_sites "query sites: %w" (ok d.sites)

  -- `UpdateSiteStatus`.
  unfoldable pub update_site_status : String → String → SiteDb → Result SiteDb
  unfolding any update_where
  update_site_status domain status =
      on_site SiteStmt.update_site_status "update site status: %w" domain (λ d. record d {
        sites = update_where (has_domain domain) (λ s. record s { status = status }) d.sites;
      })

  -- `UpdateSiteOwner`.
  unfoldable pub update_site_owner : String → String → SiteDb → Result SiteDb
  unfolding any update_where
  update_site_owner domain owner =
      on_site SiteStmt.update_site_owner "update site owner: %w" domain (λ d. record d {
        sites = update_where (has_domain domain) (λ s. record s { owner = owner }) d.sites;
      })

  -- The rows of `domains` whose site is the one of a domain.
  unfoldable pub routes_to : List SiteRow → String → DomainRow → Bool
  unfolding any
  routes_to sites domain r = any (λ s. s.domain == domain && s.id == r.site_id) sites

  -- `DeleteSite`; the rows of `domains` of the site go with it (ON DELETE CASCADE).
  unfoldable pub delete_site : String → SiteDb → Result SiteDb
  unfolding any delete_where routes_to
  delete_site domain = on_site SiteStmt.delete_site "delete site: %w" domain (λ d. record d {
    sites = delete_where (has_domain domain) d.sites;
    domains = delete_where (routes_to d.sites domain) d.domains;
  })

  -- `DeleteSiteChildData`, one transaction.
  unfoldable pub delete_site_child_data : String → SiteDb → Result SiteDb
  unfolding delete_where
  delete_site_child_data domain d =
      run SiteStmt.delete_site_child_data "delete %s rows for %q: %w"
        (ok (record d { children = delete_where (is_of domain) d.children }))

  -- `DeleteOperations`, `DeleteUptimeCheck`, `DeleteProcessScaling`, `DeleteSiteSecrets`.
  unfoldable pub delete_others : SiteStmt → String → String → SiteDb → Result SiteDb
  unfolding delete_where
  delete_others s kind domain d =
      run s "%w"
        (ok (record d { others = delete_where (λ r. r.kind == kind && is_of domain r) d.others }))

  -- `SetSiteSecret` and `LogOperation`: the row of the site; what it says is left out.
  unfoldable pub add_other : SiteStmt → String → String → SiteDb → Result SiteDb
  add_other s kind domain d =
      run s "%w"
        (ok (record d { others = d.others ++ record { kind = kind; site_domain = domain } ∷ [] }))

  -- `AddDomain`: the domain is UNIQUE.
  unfoldable pub add_domain : ℕ → String → Bool → SiteDb → Result SiteDb
  unfolding any
  add_domain site_id domain is_primary d = run SiteStmt.add_domain "add domain %q: %w" (
      if any (λ (r : DomainRow). r.domain == domain) d.domains
      then failed "add domain %q: %w"
      else ok (record d {
        domains =
            d.domains
            ++ record { site_id = site_id; domain = domain; is_primary = is_primary } ∷ [];
      }))

  -- `ListDomains`; the order is left out.
  unfoldable pub list_domains : ℕ → SiteDb → Result (List String)
  unfolding delete_where
  list_domains site_id d = run SiteStmt.list_domains "query domains: %w" (
      ok (
        map (λ (r : DomainRow). r.domain)
          (delete_where (λ (r : DomainRow). not (r.site_id == site_id)) d.domains)))

  -- `RemoveDomainForSite`.
  unfoldable pub remove_domain_for_site : ℕ → String → SiteDb → Result SiteDb
  unfolding any delete_where
  remove_domain_for_site site_id domain d =
      run SiteStmt.remove_domain_for_site "remove domain: %w" (
        if any (λ (r : DomainRow). r.site_id == site_id && r.domain == domain) d.domains
        then ok (record d {
          domains =
              delete_where (λ (r : DomainRow). r.site_id == site_id && r.domain == domain)
                d.domains;
        })
        else err (plain "domain %q not found"))

  -- The site that a row of `domains` belongs to.
  unfoldable pub site_of_domain : List SiteRow → Option DomainRow → Option SiteRow
  unfolding find
  site_of_domain sites none = none
  site_of_domain sites (some r) = find (λ s. s.id == r.site_id) sites

  -- `GetSiteByDomain`: the join, then `GetSite`.
  unfoldable pub get_site_by_domain : String → SiteDb → Result SiteRow
  unfolding find site_of_domain get_site
  get_site_by_domain domain d =
      run SiteStmt.get_site_by_domain "query site by domain: %w"
        (elim (site_of_domain d.sites (find (λ (r : DomainRow). r.domain == domain) d.domains)) [
          | none ↦ err (plain "no site found for domain %q")
          | some s ↦ get_site s.domain d
        ])

  -- `CreateSharedNetwork`: the name is the primary key.
  unfoldable pub create_shared_network : String → String → SiteDb → Result SiteDb
  unfolding any
  create_shared_network name owner d =
      run SiteStmt.create_shared_network "create shared network: %w" (
        if any (has_name name) d.networks
        then failed "create shared network: %w"
        else ok (record d { networks = d.networks ++ record { name = name; owner = owner } ∷ [] }))

  -- `GetSharedNetwork`; `none` is the source's `ok == false`. The members are read apart.
  unfoldable pub get_shared_network : String → SiteDb → Result (Option NetworkRow)
  unfolding find
  get_shared_network name d =
      run SiteStmt.get_shared_network "%w" (ok (find (has_name name) d.networks))

  -- `ListNetworkMembers`; the order is left out.
  unfoldable pub list_network_members : String → SiteDb → Result (List String)
  unfolding delete_where
  list_network_members network d = run SiteStmt.list_network_members "%w" (
      ok (
        map (λ (m : MemberRow). m.site_domain)
          (delete_where (λ (m : MemberRow). not (m.network == network)) d.members)))

  -- `DeleteSharedNetwork`, one transaction.
  unfoldable pub delete_shared_network : String → SiteDb → Result SiteDb
  unfolding delete_where
  delete_shared_network name d = run SiteStmt.delete_shared_network "%w" (
      ok (record d {
        members = delete_where (λ m. m.network == name) d.members;
        networks = delete_where (has_name name) d.networks;
      }))

  -- `AddNetworkMember`, which does nothing for a member.
  unfoldable pub add_network_member : String → String → SiteDb → Result SiteDb
  unfolding any
  add_network_member network domain d = run SiteStmt.add_network_member "%w" (
      if any (is_member network domain) d.members
      then ok d
      else ok (record d {
        members = d.members ++ record { network = network; site_domain = domain } ∷ [];
      }))

  -- `RemoveNetworkMember`.
  unfoldable pub remove_network_member : String → String → SiteDb → Result SiteDb
  unfolding delete_where
  remove_network_member network domain d =
      run SiteStmt.remove_network_member "%w"
        (ok (record d { members = delete_where (is_member network domain) d.members }))

  -- `ListSiteNetworks`; the order is left out.
  unfoldable pub list_site_networks : String → SiteDb → Result (List String)
  unfolding delete_where
  list_site_networks domain d = run SiteStmt.list_site_networks "%w" (
      ok (
        map (λ (m : MemberRow). m.network)
          (delete_where (λ m. not (member_domain domain m)) d.members)))

  -- `RemoveSiteFromAllNetworks`.
  unfoldable pub remove_site_from_all_networks : String → SiteDb → Result SiteDb
  unfolding delete_where
  remove_site_from_all_networks domain d =
      run SiteStmt.remove_site_from_all_networks "%w"
        (ok (record d { members = delete_where (member_domain domain) d.members }))

  -- `GetUserByName`, as far as the operations on sites use it.
  unfoldable pub user_known : String → SiteDb → Bool
  unfolding any
  user_known name d = not (down SiteStmt.get_user_by_name) && any (λ n. n == name) d.user_names
