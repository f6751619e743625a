-- ===== src/Sites/Networks/Leaving.antt =====
-- The sites that join and leave a shared network, and the bridge.
use apod.Base.{
  ◌≡◌, sym, subst, ◌∙◌, inl, inr, true, false, String, List, Result, ok, err, Error, Result-cases,
  string_eq, any, delete_where, arith, Bool-cases,
}
use apod.Base.Effects.{M, ◌>>=◌, ◌>>◌, query, attempt, exec, Preserves, bind-post, bind-outcome}
use apod.Db.Sites.{
  SiteDb, NetworkRow, MemberRow, is_member, member_domain, get_site, add_network_member,
  remove_network_member, list_site_networks, remove_site_from_all_networks,
}
use apod.Sites.{World, State, statement, write, read}
use apod.Sites.Networks.{
  connect_site, disconnect_site, disconnect_all, find_network, may_join, join_network,
  leave_network, leave_each, leave_all_networks,
}
use apod.Sites.Networks.Bridges.{
  HasOneSite, is_attached, disconnect_site-attached, Disconnects, disconnect_site-gone,
  disconnect_all-attached, disconnect_all-gone,
}
use apod.Sites.Networks.Calls.{disconnect_site-db, disconnect_all-db, find_network-state}
use apod.Sites.Networks.Attached.{
  any-kept, never, Bridged, write-Bridged, removal-Bridged, add_network_member-member,
  add_network_member-keeps, list_site_networks-listed,
}
use apod.Sites.Networks.Endpoints.{
  disconnect_site-containers, disconnect_all-containers, fewer-Bridged, connect_site-Bridged,
}

module _ (world : World) (up : Disconnects world) where
  -- The statement first, then the bridge.
  left-Bridged :
      (name domain : String) (s : State) (d : SiteDb)
      → remove_network_member world.down name domain s.db ≡ ok d
      → Bridged s
      → Bridged (disconnect_site world name domain (record s { db = d }))
  left-Bridged name domain s d e b = record {
    one_site = subst HasOneSite (sym (disconnect_site-containers world name domain s1)) b.one_site;
    member = λ n m a.
        subst (λ (d : SiteDb). any (is_member n m) d.members ≡ true)
          (sym (disconnect_site-db world name domain s1))
          (subst (λ x. any (is_member n m) x ≡ true) (sym (left e))
            (any-kept (is_member n m) (is_member name domain) s.db.members (spared n m a)
              (b.member n m (disconnect_site-attached world name domain n m s1 a))));
  }
    where
      s1 : State
      s1 = record s { db = d }

      left :
          remove_network_member world.down name domain s.db ≡ ok d
          → d.members ≡ delete_where (is_member name domain) s.db.members
      left e = unfold remove_network_member in ground arith

      spared :
          (n m : String)
          → is_attached n m (disconnect_site world name domain s1) ≡ true
          → (r : MemberRow) → is_member n m r ≡ true
          → is_member name domain r ≡ false
      spared n m a r h = elim (Bool-cases (is_member name domain r)) [
        | inr other ↦ other
        | inl that ↦ never a (
            subst (λ x. is_attached x m (disconnect_site world name domain s1) ≡ false)
              (network that)
              (subst (λ y. is_attached name y (disconnect_site world name domain s1) ≡ false)
                (site that) (disconnect_site-gone world up name domain s1)))
      ]
        where
          network : is_member name domain r ≡ true → name ≡ n
          network that =
              sym ((string_eq.beq_iff r.network name).0 (ground arith))
              ∙ (string_eq.beq_iff r.network n).0 (ground arith)

          site : is_member name domain r ≡ true → domain ≡ m
          site that =
              sym ((string_eq.beq_iff r.site_domain domain).0 (ground arith))
              ∙ (string_eq.beq_iff r.site_domain m).0 (ground arith)

  not_removed :
      (name domain : String) (s : State) (x : Error)
      → (write (remove_network_member world.down name domain) s).1 ≡ err x
      → Bridged s
      → Bridged (write (remove_network_member world.down name domain) s).0
  not_removed name domain s x h b =
      elim (Result-cases (remove_network_member world.down name domain s.db)) [
        | inl (y, e) ↦ rw (e, statement) b
        | inr (d, e) ↦ absurd (stuck (rw (e, statement) at h))
      ]
    where
      stuck : ◌≡◌ {A = Result (Unit {0})} (ok tt) (err x) → ⊥
      stuck q = cc

  removed :
      (name domain : String) (s : State)
      → (write (remove_network_member world.down name domain) s).1 ≡ ok tt
      → Bridged s
      → Bridged (
          disconnect_site world name domain
            (write (remove_network_member world.down name domain) s).0)
  removed name domain s h b =
      elim (Result-cases (remove_network_member world.down name domain s.db)) [
        | inl (x, e) ↦ absurd (stuck x (rw (e, statement) at h))
        | inr (d, e) ↦ rw (e, statement) (left-Bridged name domain s d e b)
      ]
    where
      stuck : (x : Error) → ◌≡◌ {A = Result (Unit {0})} (err x) (ok tt) → ⊥
      stuck x q = cc

  pub leave_network-Bridged :
      (name domain : String) → Preserves Bridged (leave_network world name domain)
  unfolding leave_network
  leave_network-Bridged name domain = record {
    preserved = λ s b.
        bind-outcome (λ (y : State × Result (Unit {0})). Bridged y.0)
          (write (remove_network_member world.down name domain))
          (λ u. exec (λ s. ok (disconnect_site world name domain s))) s
          (λ x h. not_removed name domain s x h b) (λ u h. removed name domain s h b);
  }

  -- The join, from the network that was found.
  join_from : String → String → NetworkRow → M State (Unit {0})
  join_from name domain n = attempt (read (get_site world.down domain)) >>= (λ site.
      query (λ s. may_join site n)
      >> (write (add_network_member world.down name domain)
          >> exec (λ s. ok (connect_site world name domain s))))

  added-member :
      (name domain : String) (s : State)
      → (write (add_network_member world.down name domain) s).1 ≡ ok tt
      → any
          (is_member name domain)
          (write (add_network_member world.down name domain) s).0.db.members
        ≡ true
  added-member name domain s h =
      elim (Result-cases (add_network_member world.down name domain s.db)) [
        | inl (x, e) ↦ absurd (stuck x (rw (e, statement) at h))
        | inr (d, e) ↦ rw (e, statement) (add_network_member-member world.down name domain s.db d e)
      ]
    where
      stuck : (x : Error) → ◌≡◌ {A = Result (Unit {0})} (err x) (ok tt) → ⊥
      stuck x q = cc

  join_from-Bridged :
      (name domain : String) (n : NetworkRow) (s : State)
      → Bridged s
      → Bridged (join_from name domain n s).0
  unfolding join_from
  join_from-Bridged name domain n s b =
      let added = write (add_network_member world.down name domain) in
      let b1 =
        (write-Bridged (add_network_member world.down name domain) (λ d d' n m e k.
            add_network_member-keeps world.down name domain d d' n m e k)).preserved
          s b in
      bind-post Bridged (query (λ (s : State). may_join (get_site world.down domain s.db) n))
        (λ u. added >> exec (λ s. ok (connect_site world name domain s))) s b
        (λ u e.
          bind-post Bridged added (λ u. exec (λ s. ok (connect_site world name domain s))) s b1
            (λ v h.
              connect_site-Bridged world name domain (added s).0 (added-member name domain s h) b1))

  pub join_network-Bridged :
      (name domain : String) → Preserves Bridged (join_network world name domain)
  unfolding join_network join_from
  join_network-Bridged name domain = record {
    preserved = λ s b.
        bind-post Bridged (find_network world name) (join_from name domain) s
          (subst Bridged (sym (find_network-state world name s)) b)
          (λ n h.
            subst (λ y. Bridged (join_from name domain n y).0)
              (sym (find_network-state world name s)) (join_from-Bridged name domain n s b));
  }

  -- A site that leaves all of its networks.
  all_left :
      (domain : String) (ns : List String) (s : State)
      → list_site_networks world.down domain s.db ≡ ok ns
      → Bridged s
      → (name : String) → is_attached name domain (disconnect_all world domain ns s) ≡ false
  all_left domain ns s e b name =
      elim (Bool-cases (is_attached name domain (disconnect_all world domain ns s))) [
        | inr n ↦ n
        | inl y ↦ disconnect_all-gone world up domain ns name s (
            list_site_networks-listed world.down name domain s.db ns e
              (b.member name domain (disconnect_all-attached world up domain ns name domain s y)))
      ]

  all_left-Bridged :
      (domain : String) (ns : List String) (s : State)
      → list_site_networks world.down domain s.db ≡ ok ns
      → Bridged s
      → Bridged (leave_each world domain (ok ns) s).0
  unfolding leave_each remove_site_from_all_networks
  all_left-Bridged domain ns s e b =
      removal-Bridged (member_domain domain) (remove_site_from_all_networks world.down domain) s1
        (λ d q. left d q) spared
        (fewer-Bridged world s s1 (disconnect_all-containers world domain ns s)
          (disconnect_all-db world domain ns s)
          (λ n m a. disconnect_all-attached world up domain ns n m s a) b)
    where
      s1 : State
      s1 = disconnect_all world domain ns s

      left :
          (d : SiteDb)
          → remove_site_from_all_networks world.down domain s1.db ≡ ok d
          → d.members ≡ delete_where (member_domain domain) s1.db.members
      left d q = ground arith

      spared :
          (n m : String)
          → is_attached n m s1 ≡ true
          → (r : MemberRow) → is_member n m r ≡ true
          → member_domain domain r ≡ false
      spared n m a r h = elim (Bool-cases (member_domain domain r)) [
        | inr other ↦ other
        | inl that ↦ never a (
            subst (λ y. is_attached n y s1 ≡ false)
              (sym ((string_eq.beq_iff r.site_domain domain).0 that)
                ∙ (string_eq.beq_iff r.site_domain m).0 (ground arith))
              (all_left domain ns s e b n))
      ]

  pub leave_all_networks-Bridged :
      (domain : String) → Preserves Bridged (leave_all_networks world domain)
  unfolding leave_all_networks
  leave_all_networks-Bridged domain = record { preserved = go }
    where
      go : (s : State) → Bridged s → Bridged (leave_all_networks world domain s).0
      go s b = elim (Result-cases (list_site_networks world.down domain s.db)) [
        | inl (x, e) ↦ rw (e, leave_each) b
        | inr (ns, e) ↦ rw e (all_left-Bridged domain ns s e b)
      ]
