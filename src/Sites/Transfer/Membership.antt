-- ===== src/Sites/Transfer/Membership.antt =====
-- What a transfer does to the site's place in the shared networks.
use apod.Base.{
  ◌≡◌, refl, sym, ap, subst, ◌∙◌, inl, inr, true, false, String, some, Result, ok, Result-cases,
  ◌==◌, string_eq, find, any, arith, Bool-cases, find-update_where,
}
use apod.Base.Effects.{M, ◌>>◌, query, Preserves, query-Preserves, bind-ok, bind-post}
use apod.Db.{SiteStmt}
use apod.Db.Sites.{SiteRow, has_domain, member_domain, get_site, update_site_owner}
use apod.Sites.{World, State, statement, write, read}
use apod.Sites.Networks.Tenants.{IsOneTenant}
use apod.Sites.Networks.Owners.{update_site_owner-KeepsTenants, update_site_owner_same-KeepsTenants}
use apod.Sites.Networks.Owners.{update_site_owner-KeepsTenants, update_site_owner_same-KeepsTenants}
use apod.Sites.Networks.Calls.{
  leave_all_networks-Preserves, leave_all-sites, leave_all-alone, leave_all-failed, get_site-ok,
}
use apod.Sites.Transfer.{known_owner, detach, transfer_site}

module _ (world : World) (domain new_owner : String) where
  -- The owner is written after the site has left its networks.
  abbrev move : SiteRow → M State (Unit {0})
  move site =
      detach world domain new_owner site >> write (update_site_owner world.down domain new_owner)

  abbrev rest : SiteRow → M State (Unit {0})
  rest site = query (known_owner world new_owner) >> move site

  detach-Preserves : (site : SiteRow) → Preserves IsOneTenant (detach world domain new_owner site)
  unfolding detach
  detach-Preserves site = elim (Bool-cases (new_owner == site.owner)) [
    | inl same ↦ rw same (query-Preserves IsOneTenant (λ s. ok tt))
    | inr other ↦ rw other (leave_all_networks-Preserves world domain)
  ]

  module _ (list_up : world.down SiteStmt.list_site_networks ≡ false)
      (remove_up : world.down SiteStmt.remove_site_from_all_networks ≡ false) where
    owner-P :
        (site : SiteRow) (s : State)
        → find (has_domain domain) s.db.sites ≡ some site
        → IsOneTenant s
        → IsOneTenant
            (write
              (update_site_owner world.down domain new_owner)
              (detach world domain new_owner site s).0).0
    unfolding detach
    owner-P site s found p =
        let s1 : State = (detach world domain new_owner site s).0 in
        let p1 = (detach-Preserves site).preserved s p in
        elim (Result-cases (update_site_owner world.down domain new_owner s1.db)) [
          | inl (x, w) ↦ rw (w, statement) p1
          | inr (d, w) ↦
              rw (w, statement)
                (elim (Bool-cases (new_owner == site.owner)) [
                  | inl same ↦
                      update_site_owner_same-KeepsTenants world.down domain new_owner s1.db d site
                        (stays same) (sym ((string_eq.beq_iff new_owner site.owner).0 same)) w p1
                  | inr other ↦
                      update_site_owner-KeepsTenants world.down domain new_owner s1.db d
                        (alone other) w p1
                ])
        ]
      where
        stays :
            (new_owner == site.owner) ≡ true
            → find (has_domain domain) (detach world domain new_owner site s).0.db.sites ≡ some site
        stays same = rw same found

        alone :
            (new_owner == site.owner) ≡ false
            → any (member_domain domain) (detach world domain new_owner site s).0.db.members ≡ false
        alone other = rw other (leave_all-alone world domain s list_up remove_up)

    -- Whatever a transfer answers, a network and the sites in it still have one owner.
    pub transfer_site-OneTenant :
        (s : State) → IsOneTenant s → IsOneTenant (transfer_site world domain new_owner s).0
    unfolding transfer_site
    transfer_site-OneTenant s p =
        bind-post IsOneTenant (read (get_site world.down domain)) rest s p (λ site e.
          bind-post IsOneTenant (query (known_owner world new_owner)) (λ u. move site) s p
            (λ u e2.
              bind-post IsOneTenant (detach world domain new_owner site)
                (λ u. write (update_site_owner world.down domain new_owner)) s
                ((detach-Preserves site).preserved s p)
                (λ v e3. owner-P site s (get_site-ok world domain s.db site e) p)))

  -- The steps of a transfer that succeeds.
  steps :
      (s : State)
      → (transfer_site world domain new_owner s).1 ≡ ok tt
      → (site : SiteRow) × (find (has_domain domain) s.db.sites ≡ some site)
        × ((write
              (update_site_owner world.down domain new_owner)
              (detach world domain new_owner site s).0).1
            ≡ ok tt)
        × (transfer_site world domain new_owner s
            ≡ write
                (update_site_owner world.down domain new_owner)
                (detach world domain new_owner site s).0)
  unfolding transfer_site
  steps s h =
      let (site, e, h1, q1) = bind-ok (read (get_site world.down domain)) rest s h in
      let (u, e2, h2, q2) = bind-ok (query (known_owner world new_owner)) (λ u. move site) s h1 in
      let (v, e3, h3, q3) =
        bind-ok (detach world domain new_owner site)
          (λ u. write (update_site_owner world.down domain new_owner)) s h2 in
      (site, get_site-ok world domain s.db site e, h3, q1 ∙ q2 ∙ q3)

  -- The new owner is written, and nobody else's row.
  written-owner :
      (s : State) (site : SiteRow)
      → find (has_domain domain) s.db.sites ≡ some site
      → (write (update_site_owner world.down domain new_owner) s).1 ≡ ok tt
      → find
          (has_domain domain)
          (write (update_site_owner world.down domain new_owner) s).0.db.sites
        ≡ some (record site { owner = new_owner })
  unfolding update_site_owner
  written-owner s site f h = ground (
    arith,
    find-update_where (has_domain domain) (λ s. record s { owner = new_owner }) s.db.sites site
        (λ y e. e) f,
  )

  written-members :
      (s : State)
      → (write (update_site_owner world.down domain new_owner) s).0.db.members ≡ s.db.members
  unfolding update_site_owner
  written-members s = ground arith

  detach-sites :
      (site : SiteRow) (s : State) → (detach world domain new_owner site s).0.db.sites ≡ s.db.sites
  unfolding detach
  detach-sites site s = elim (Bool-cases (new_owner == site.owner)) [
    | inl same ↦ rw same refl
    | inr other ↦ rw other (leave_all-sites world domain s)
  ]

  -- What a transfer that succeeds has done.
  pub record Moved (s s' : State) : Type 0 where
    pub site : SiteRow
    pub old : find (has_domain domain) s.db.sites ≡ some site
    pub new : find (has_domain domain) s'.db.sites ≡ some (record site { owner = new_owner })
    pub alone :
        (new_owner == site.owner) ≡ false
        → world.down SiteStmt.list_site_networks ≡ false
        → world.down SiteStmt.remove_site_from_all_networks ≡ false
        → any (member_domain domain) s'.db.members ≡ false

  -- A transfer that succeeds has written the new owner into the row of the site and nothing else of it. If the
  -- owner is another one and the statements about the memberships run, the site is in no shared network.
  pub transfer_site-Moved :
      (s : State)
      → (transfer_site world domain new_owner s).1 ≡ ok tt
      → Moved s (transfer_site world domain new_owner s).0
  unfolding detach
  transfer_site-Moved s h =
      let (site, found, h3, q) = steps s h in
      let s1 : State = (detach world domain new_owner site s).0 in
      subst (λ (y : State × Result (Unit {0})). Moved s y.0) (sym q)
        (record {
          site = site;
          old = found;
          new =
              written-owner s1 site (ap (find (has_domain domain)) (detach-sites site s) ∙ found)
                h3;
          alone = λ other a b.
              ap (any (member_domain domain)) (written-members s1) ∙ left site s other a b;
        })
    where
      left :
          (site : SiteRow) (s : State)
          → (new_owner == site.owner) ≡ false
          → world.down SiteStmt.list_site_networks ≡ false
          → world.down SiteStmt.remove_site_from_all_networks ≡ false
          → any (member_domain domain) (detach world domain new_owner site s).0.db.members ≡ false
      left site s other a b = rw (detach, other) (leave_all-alone world domain s a b)

  -- Where the memberships of the site cannot be listed, a transfer that succeeds leaves the site in every shared
  -- network that it was in, although the new owner is written.
  pub transfer_site-bridges :
      (s : State)
      → world.down SiteStmt.list_site_networks ≡ true
      → (transfer_site world domain new_owner s).1 ≡ ok tt
      → ((transfer_site world domain new_owner s).0.db.members ≡ s.db.members)
        × ((site : SiteRow) × (find
                (has_domain domain)
                (transfer_site world domain new_owner s).0.db.sites
              ≡ some site)
            × (site.owner ≡ new_owner))
  unfolding detach
  transfer_site-bridges s a h =
      let (site, found, h3, q) = steps s h in
      let s1 : State = (detach world domain new_owner site s).0 in
      (
        ap (λ (y : State × Result (Unit {0})). y.0.db.members) q
            ∙ written-members s1
            ∙ detached site s,
        (
          record site { owner = new_owner },
          ap (λ (y : State × Result (Unit {0})). find (has_domain domain) y.0.db.sites) q
              ∙ written-owner s1 site (ap (find (has_domain domain)) (detach-sites site s) ∙ found)
                  h3,
          refl,
        ),
      )
    where
      detached :
          (site : SiteRow) (s : State)
          → (detach world domain new_owner site s).0.db.members ≡ s.db.members
      detached site s = elim (Bool-cases (new_owner == site.owner)) [
        | inl same ↦ rw (detach, same) refl
        | inr other ↦
            rw (detach, other)
              (ap (λ (y : State). y.db.members) (leave_all-failed world domain s a))
      ]
