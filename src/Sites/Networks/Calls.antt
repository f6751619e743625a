-- ===== src/Sites/Networks/Calls.antt =====
-- What the calls about the shared networks leave of the owners of their members.
use apod.Base.{
  ◌≡◌, refl, sym, subst, ◌∙◌, inl, inr, true, false, not, String, some, List, [], ◌∷◌, Result, ok,
  err, Result-cases, string_eq, if◌then◌else◌, find, any, map, delete_where, arith, Bool-cases,
  plain, invalid, codes, any-delete_where,
}
use apod.Base.Effects.{
  M, ◌>>=◌, ◌>>◌, query, attempt, exec, Preserves, query-Preserves, bind-Preserves, then-Preserves,
  attempt-Preserves, bind-post,
}
use apod.Db.{SiteStmt}
use apod.Db.Sites.{
  SiteDb, SiteRow, NetworkRow, MemberRow, has_domain, has_name, member_domain, get_site,
  create_shared_network, get_shared_network, list_network_members, delete_shared_network,
  add_network_member, remove_network_member, list_site_networks, remove_site_from_all_networks,
}
use apod.Sites.{World, State, SiteCall, statement, write, read}
use apod.Sites.Networks.{
  is_network_name, connect_site, disconnect_site, disconnect_all, disconnect_members,
  refuse_existing, open_bridge, open_network, present, find_network, close_network, may_join,
  join_network, leave_network, leave_each, leave_all_networks,
}
use apod.Sites.Networks.Tenants.{
  OneTenant, IsOneTenant, write-OneTenant, try_write-OneTenant, create_shared_network-KeepsTenants,
  delete_shared_network-KeepsTenants, remove_network_member-KeepsTenants,
  remove_site_from_all_networks-KeepsTenants,
}
use apod.Sites.Networks.Membership.{add_network_member-KeepsTenants}

-- The networks that a site is in.
abbrev networks_of : String → SiteDb → List String
networks_of domain d =
    map (λ (m : MemberRow). m.network) (delete_where (λ m. not (member_domain domain m)) d.members)

module _ (world : World) where
  abbrev P : State → Type 0
  P = IsOneTenant

  -- The endpoints are no part of it.
  same-tenants :
      (f : State → State) → ((s : State) → (f s).db ≡ s.db) → Preserves P (exec (λ s. ok (f s)))
  same-tenants f e = record { preserved = λ s p. subst OneTenant (sym (e s)) p }

  pub connect_site-db :
      (network domain : String) (s : State) → (connect_site world network domain s).db ≡ s.db
  unfolding connect_site
  connect_site-db network domain s = ground arith

  pub disconnect_site-db :
      (network domain : String) (s : State) → (disconnect_site world network domain s).db ≡ s.db
  unfolding disconnect_site
  disconnect_site-db network domain s = ground arith

  pub disconnect_all-db :
      (domain : String) (ns : List String) (s : State)
      → (disconnect_all world domain ns s).db ≡ s.db
  unfolding disconnect_all
  disconnect_all-db domain [] s = refl
  disconnect_all-db domain (n ∷ ns) s =
      disconnect_all-db domain ns (disconnect_site world n domain s) ∙ disconnect_site-db n domain s

  pub disconnect_members-db :
      (network : String) (ms : List String) (s : State)
      → (disconnect_members world network ms s).db ≡ s.db
  unfolding disconnect_members
  disconnect_members-db network [] s = refl
  disconnect_members-db network (m ∷ ms) s =
      disconnect_members-db network ms (disconnect_site world network m s)
      ∙ disconnect_site-db network m s

  open_bridge-Preserves : (name : String) → Preserves P (open_bridge world name)
  unfolding open_bridge
  open_bridge-Preserves name = elim (Bool-cases (world.fails (SiteCall.ensure_network name))) [
    | inl broken ↦ rw broken (
        then-Preserves P
          (try_write-OneTenant (delete_shared_network world.down name)
            (delete_shared_network-KeepsTenants world.down name))
          (query-Preserves P (λ s. err (plain "create network bridge: %w"))))
    | inr up ↦ rw up (query-Preserves P (λ s. ok tt))
  ]

  pub open_network-Preserves : (name owner : String) → Preserves P (open_network world name owner)
  unfolding open_network
  open_network-Preserves name owner =
      then-Preserves P
        (query-Preserves P (λ s.
          if is_network_name (codes name)
          then ok tt
          else err (invalid "invalid network name %q: use letters, digits, _ or -")))
        (bind-Preserves P
          (attempt-Preserves P (query-Preserves P (λ s. get_shared_network world.down name s.db)))
          (λ existing. then-Preserves P (query-Preserves P (λ s. refuse_existing name existing)) (
            then-Preserves P
              (write-OneTenant (create_shared_network world.down name owner)
                (create_shared_network-KeepsTenants world.down name owner))
              (open_bridge-Preserves name))))

  find_network-Preserves : (name : String) → Preserves P (find_network world name)
  unfolding find_network
  find_network-Preserves name =
      bind-Preserves P (query-Preserves P (λ s. get_shared_network world.down name s.db)) (λ found.
        bind-Preserves P (query-Preserves P (λ s. present found)) (λ n.
          bind-Preserves P (query-Preserves P (λ s. list_network_members world.down name s.db))
            (λ members. query-Preserves P (λ s. ok n))))

  pub close_network-Preserves : (name : String) → Preserves P (close_network world name)
  unfolding close_network
  close_network-Preserves name = bind-Preserves P (find_network-Preserves name) (λ n.
      bind-Preserves P (query-Preserves P (λ s. list_network_members world.down name s.db))
        (λ members.
          then-Preserves P
            (same-tenants (disconnect_members world name members)
              (disconnect_members-db name members))
            (write-OneTenant (delete_shared_network world.down name)
              (delete_shared_network-KeepsTenants world.down name))))

  pub leave_network-Preserves :
      (name domain : String) → Preserves P (leave_network world name domain)
  unfolding leave_network
  leave_network-Preserves name domain =
      then-Preserves P
        (write-OneTenant (remove_network_member world.down name domain)
          (remove_network_member-KeepsTenants world.down name domain))
        (same-tenants (disconnect_site world name domain) (disconnect_site-db name domain))

  -- What the look-up of a network answers.
  find_network-ok :
      (name : String) (s : State) (n : NetworkRow)
      → (find_network world name s).1 ≡ ok n
      → find (has_name name) s.db.networks ≡ some n
  unfolding find_network get_shared_network
  find_network-ok name s n h = ground arith

  pub find_network-state : (name : String) (s : State) → (find_network world name s).0 ≡ s
  unfolding find_network
  find_network-state name s = ground arith

  pub get_site-ok :
      (domain : String) (d : SiteDb) (r : SiteRow)
      → get_site world.down domain d ≡ ok r
      → find (has_domain domain) d.sites ≡ some r
  unfolding get_site
  get_site-ok domain d r h = ground arith

  -- The join of a site that was looked up, and of its network.
  join_from : String → String → NetworkRow → M State (Unit {0})
  join_from name domain n = attempt (read (get_site world.down domain)) >>= (λ site.
      query (λ s. may_join site n)
      >> (write (add_network_member world.down name domain)
          >> exec (λ s. ok (connect_site world name domain s))))

  may_join-ok :
      (site : Result SiteRow) (n : NetworkRow) (u : Unit {0})
      → may_join site n ≡ ok u
      → (r : SiteRow) × (site ≡ ok r) × (r.owner ≡ n.owner)
  may_join-ok (err x) n u h = absurd (stuck h)
    where
      stuck : may_join (err x) n ≡ ok u → ⊥
      stuck q = cc
  may_join-ok (ok r) n u h = (r, refl, (string_eq.beq_iff r.owner n.owner).0 (ground arith))

  member-P :
      (name domain : String) (n : NetworkRow) (s : State) (u : Unit {0})
      → find (has_name name) s.db.networks ≡ some n
      → may_join (get_site world.down domain s.db) n ≡ ok u
      → P s
      → P (write (add_network_member world.down name domain) s).0
  member-P name domain n s u found may p =
      let (r, e, same) = may_join-ok (get_site world.down domain s.db) n u may in
      elim (Result-cases (add_network_member world.down name domain s.db)) [
        | inl (x, w) ↦ rw (w, statement) p
        | inr (d, w) ↦
            rw (w, statement)
              (add_network_member-KeepsTenants world.down name domain s.db d n r found
                (get_site-ok domain s.db r e) same w p)
      ]

  join_from-P :
      (name domain : String) (n : NetworkRow) (s : State)
      → find (has_name name) s.db.networks ≡ some n
      → P s
      → P (join_from name domain n s).0
  unfolding join_from
  join_from-P name domain n s found p =
      bind-post P (query (λ (s : State). may_join (get_site world.down domain s.db) n))
        (λ u.
          write (add_network_member world.down name domain)
          >> exec (λ s. ok (connect_site world name domain s)))
        s p
        (λ u may.
          let q = member-P name domain n s u found may p in
          bind-post P (write (add_network_member world.down name domain))
            (λ v. exec (λ s. ok (connect_site world name domain s))) s q
            (λ v h.
              subst OneTenant
                (sym (
                  connect_site-db name domain
                    (write (add_network_member world.down name domain) s).0))
                q))

  pub join_network-Preserves : (name domain : String) → Preserves P (join_network world name domain)
  unfolding join_network join_from
  join_network-Preserves name domain = record {
    preserved = λ s p.
        bind-post P (find_network world name) (join_from name domain) s
          (subst P (sym (find_network-state name s)) p)
          (λ n h.
            subst (λ y. P (join_from name domain n y).0) (sym (find_network-state name s))
              (join_from-P name domain n s (find_network-ok name s n h) p));
  }

  leave_each-Preserves :
      (domain : String) (r : Result (List String)) → Preserves P (leave_each world domain r)
  unfolding leave_each
  leave_each-Preserves domain (err x) = query-Preserves P (λ s. ok tt)
  leave_each-Preserves domain (ok ns) =
      then-Preserves P (same-tenants (disconnect_all world domain ns) (disconnect_all-db domain ns))
        (try_write-OneTenant (remove_site_from_all_networks world.down domain)
          (remove_site_from_all_networks-KeepsTenants world.down domain))

  pub leave_all_networks-Preserves :
      (domain : String) → Preserves P (leave_all_networks world domain)
  unfolding leave_all_networks
  leave_all_networks-Preserves domain =
      bind-Preserves P
        (attempt-Preserves P (query-Preserves P (λ s. list_site_networks world.down domain s.db)))
        (leave_each-Preserves domain)

  -- The row of the site stays as it was.
  pub leave_each-sites :
      (domain : String) (r : Result (List String)) (s : State)
      → (leave_each world domain r s).0.db.sites ≡ s.db.sites
  unfolding leave_each remove_site_from_all_networks
  leave_each-sites domain (err x) s = refl
  leave_each-sites domain (ok ns) s = ground (arith, disconnect_all-db domain ns s)

  -- A site that leaves its networks, if the statements for it run, is in none.
  pub leave_all-alone :
      (domain : String) (s : State)
      → world.down SiteStmt.list_site_networks ≡ false
      → world.down SiteStmt.remove_site_from_all_networks ≡ false
      → any (member_domain domain) (leave_all_networks world domain s).0.db.members ≡ false
  unfolding leave_all_networks list_site_networks remove_site_from_all_networks leave_each
  leave_all-alone domain s a b =
      rw (a, leave_each, statement, b)
        (any-delete_where (member_domain domain)
          (disconnect_all world domain (networks_of domain s.db) s).db.members)

  pub leave_all-failed :
      (domain : String) (s : State)
      → world.down SiteStmt.list_site_networks ≡ true
      → (leave_all_networks world domain s).0 ≡ s
  unfolding leave_all_networks list_site_networks leave_each
  leave_all-failed domain s a = rw (a, leave_each) refl

  pub leave_all-sites :
      (domain : String) (s : State) → (leave_all_networks world domain s).0.db.sites ≡ s.db.sites
  unfolding leave_all_networks
  leave_all-sites domain s = leave_each-sites domain (list_site_networks world.down domain s.db) s
