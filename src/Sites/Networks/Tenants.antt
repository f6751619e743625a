-- ===== src/Sites/Networks/Tenants.antt =====
-- A shared network connects the sites of one owner.
use apod.Base.{
  ◌≡◌, sym, ap, subst, ◌∙◌, inl, inr, Bool, true, false, String, some, [], ◌∷◌, ◌++◌, Result, ok,
  Result-cases, ◌==◌, string_eq, find, any, arith, find-append_some, find-delete_where, find_of_any,
  any_of_find,
}
use apod.Base.Effects.{Preserves}
use apod.Base.Rows.{any-of_delete_where, any-delete_where_inside, any-append}
use apod.Db.{SiteStmt}
use apod.Db.Sites.{
  SiteDb, SiteRow, NetworkRow, MemberRow, has_domain, has_name, is_member, member_domain,
  create_shared_network, delete_shared_network, remove_network_member,
  remove_site_from_all_networks,
}
use apod.Sites.{State, statement, write, try_write}

-- Members belong to networks that are there, and a network and the sites in it have one owner.
pub record OneTenant (d : SiteDb) : Type 0 where
  pub present :
      (network domain : String)
      → any (is_member network domain) d.members ≡ true
      → any (has_name network) d.networks ≡ true
  pub same_owner :
      (network domain : String) (n : NetworkRow) (s : SiteRow)
      → any (is_member network domain) d.members ≡ true
      → find (has_name network) d.networks ≡ some n
      → find (has_domain domain) d.sites ≡ some s
      → s.owner ≡ n.owner

abbrev pub IsOneTenant : State → Type 0
IsOneTenant s = OneTenant s.db

-- A statement that preserves it.
abbrev pub KeepsTenants : (SiteDb → Result SiteDb) → Type 0
KeepsTenants w = (d d' : SiteDb) → w d ≡ ok d' → OneTenant d → OneTenant d'

module _ (w : SiteDb → Result SiteDb) (keep : KeepsTenants w) where
  after-OneTenant : (s : State) → IsOneTenant s → IsOneTenant (try_write w s).0
  after-OneTenant s p = elim (Result-cases (w s.db)) [
    | inl (x, e) ↦ rw (e, statement) p
    | inr (d, e) ↦ rw (e, statement) (keep s.db d e p)
  ]

  pub write-OneTenant : Preserves IsOneTenant (write w)
  write-OneTenant = record { preserved = after-OneTenant }

  pub try_write-OneTenant : Preserves IsOneTenant (try_write w)
  try_write-OneTenant = record { preserved = after-OneTenant }

module _ (down : SiteStmt → Bool) where
  pub create_shared_network-KeepsTenants :
      (name owner : String) → KeepsTenants (create_shared_network down name owner)
  unfolding create_shared_network
  create_shared_network-KeepsTenants name owner d d' h t = record {
    present = λ network domain m.
        subst (λ x. any (has_name network) x ≡ true) (sym (added h))
          (wider network (
            t.present network domain
              (subst (λ x. any (is_member network domain) x ≡ true) (members h) m)));
    same_owner = λ network domain n s m f g.
        let before = subst (λ x. any (is_member network domain) x ≡ true) (members h) m in
        let (n', e) = find_of_any (has_name network) d.networks (t.present network domain before) in
        t.same_owner network domain n s before
          (e
            ∙ sym (
                find-append_some (has_name network) d.networks
                  (record { name = name; owner = owner } ∷ []) n' e)
            ∙ ap (find (has_name network)) (sym (added h))
            ∙ f)
          (ap (find (has_domain domain)) (sym (sites h)) ∙ g);
  }
    where
      added :
          create_shared_network down name owner d ≡ ok d'
          → d'.networks ≡ d.networks ++ record { name = name; owner = owner } ∷ []
      added h = ground arith

      members : create_shared_network down name owner d ≡ ok d' → d'.members ≡ d.members
      members h = ground arith

      sites : create_shared_network down name owner d ≡ ok d' → d'.sites ≡ d.sites
      sites h = ground arith

      wider :
          (network : String)
          → any (has_name network) d.networks ≡ true
          → any (has_name network) (d.networks ++ record { name = name; owner = owner } ∷ []) ≡ true
      wider network a =
          ground (
            arith,
            any-append (has_name network) d.networks (record { name = name; owner = owner }),
          )

  -- Fewer members, with networks and sites as they were.
  fewer :
      (d d' : SiteDb)
      → d'.networks ≡ d.networks
      → d'.sites ≡ d.sites
      → ((network domain : String)
          → any (is_member network domain) d'.members ≡ true
          → any (is_member network domain) d.members ≡ true)
      → OneTenant d
      → OneTenant d'
  fewer d d' networks sites sub t = record {
    present = λ network domain m.
        subst (λ x. any (has_name network) x ≡ true) (sym networks)
          (t.present network domain (sub network domain m));
    same_owner = λ network domain n s m f g.
        t.same_owner network domain n s (sub network domain m)
          (ap (find (has_name network)) (sym networks) ∙ f)
          (ap (find (has_domain domain)) (sym sites) ∙ g);
  }

  pub remove_network_member-KeepsTenants :
      (name domain : String) → KeepsTenants (remove_network_member down name domain)
  unfolding remove_network_member
  remove_network_member-KeepsTenants name domain d d' h t =
      fewer d d' (ground arith) (ground arith) (λ network other m. kept network other h m) t
    where
      kept :
          (network other : String)
          → remove_network_member down name domain d ≡ ok d'
          → any (is_member network other) d'.members ≡ true
          → any (is_member network other) d.members ≡ true
      kept network other h m =
          ground
            (arith, any-of_delete_where (is_member network other) (is_member name domain) d.members)

  pub remove_site_from_all_networks-KeepsTenants :
      (domain : String) → KeepsTenants (remove_site_from_all_networks down domain)
  unfolding remove_site_from_all_networks
  remove_site_from_all_networks-KeepsTenants domain d d' h t =
      fewer d d' (ground arith) (ground arith) (λ network other m. kept network other h m) t
    where
      kept :
          (network other : String)
          → remove_site_from_all_networks down domain d ≡ ok d'
          → any (is_member network other) d'.members ≡ true
          → any (is_member network other) d.members ≡ true
      kept network other h m =
          ground
            (arith, any-of_delete_where (is_member network other) (member_domain domain) d.members)

  -- What the rows that a closed network leaves are about.
  module _ (name : String) (d d' : SiteDb) (h : delete_shared_network down name d ≡ ok d') where
    left :
        (network domain : String)
        → any (is_member network domain) d'.members ≡ true
        → any (is_member network domain) d.members ≡ true
    unfolding delete_shared_network
    left network domain m = ground (
      arith,
      any-of_delete_where (is_member network domain) (λ (m : MemberRow). m.network == name)
          d.members,
    )

    gone :
        (network domain : String)
        → (network == name) ≡ true
        → any (is_member network domain) d'.members ≡ false
    unfolding delete_shared_network
    gone network domain q = ground (
      arith,
      any-delete_where_inside (is_member network domain) (λ (m : MemberRow). m.network == name)
          d.members
          (λ r e.
            ground (arith, string_eq.beq_iff network name, string_eq.beq_iff r.network network)),
    )

    other_network :
        (network domain : String)
        → any (is_member network domain) d'.members ≡ true
        → (network == name) ≡ false
    other_network network domain m = ground (arith, gone network domain)

    found :
        (network : String)
        → (network == name) ≡ false
        → find (has_name network) d'.networks ≡ find (has_name network) d.networks
    unfolding delete_shared_network
    found network q = ground (
      arith,
      find-delete_where (has_name network) (has_name name) d.networks (λ r e. ground (
        arith,
        string_eq.beq_iff r.name network,
        string_eq.beq_iff r.name name,
        string_eq.beq_iff network name,
      )),
    )

    same_sites : d'.sites ≡ d.sites
    unfolding delete_shared_network
    same_sites = ground arith

  pub delete_shared_network-KeepsTenants :
      (name : String) → KeepsTenants (delete_shared_network down name)
  delete_shared_network-KeepsTenants name d d' h t = record {
    present = λ network domain m.
        let (n, e) =
          find_of_any (has_name network) d.networks
            (t.present network domain (left name d d' h network domain m)) in
        any_of_find (has_name network) d'.networks n
          (found name d d' h network (other_network name d d' h network domain m) ∙ e);
    same_owner = λ network domain n s m f g.
        t.same_owner network domain n s (left name d d' h network domain m)
          (sym (found name d d' h network (other_network name d d' h network domain m)) ∙ f)
          (ap (find (has_domain domain)) (sym (same_sites name d d' h)) ∙ g);
  }
