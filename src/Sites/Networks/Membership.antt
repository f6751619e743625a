-- ===== src/Sites/Networks/Membership.antt =====
-- What a new member does to a shared network.
use apod.Base.{
  ◌≡◌, sym, ap, subst, ◌∙◌, inl, inr, Bool, true, String, some, ok, string_eq, find, any, arith,
  Bool-cases, any_of_find, ◌⊎◌,
}
use apod.Base.Rows.{any-append}
use apod.Db.{SiteStmt}
use apod.Db.Sites.{SiteDb, SiteRow, NetworkRow, has_domain, has_name, is_member, add_network_member}
use apod.Sites.Networks.Tenants.{OneTenant}

module _ (down : SiteStmt → Bool) where
  -- What a new member changes.
  module _ (name domain : String) (d d' : SiteDb)
      (h : add_network_member down name domain d ≡ ok d') where
    joined :
        (network other : String)
        → any (is_member network other) d'.members ≡ true
        → (any (is_member network other) d.members ≡ true) ⊎ ((name ≡ network) × (domain ≡ other))
    unfolding add_network_member
    joined network other m = elim (Bool-cases (any (is_member network other) d.members)) [
      | inl old ↦ inl old
      | inr new ↦ inr (
        (string_eq.beq_iff name network).0 (
            ground (
              arith,
              any-append (is_member network other) d.members
                  (record { network = name; site_domain = domain }),
            )),
        (string_eq.beq_iff domain other).0 (
            ground (
              arith,
              any-append (is_member network other) d.members
                  (record { network = name; site_domain = domain }),
            )),
      )
    ]

    joined-networks : d'.networks ≡ d.networks
    unfolding add_network_member
    joined-networks = ground arith

    joined-sites : d'.sites ≡ d.sites
    unfolding add_network_member
    joined-sites = ground arith

  pub add_network_member-KeepsTenants :
      (name domain : String) (d d' : SiteDb) (n : NetworkRow) (s : SiteRow)
      → find (has_name name) d.networks ≡ some n
      → find (has_domain domain) d.sites ≡ some s
      → s.owner ≡ n.owner
      → add_network_member down name domain d ≡ ok d'
      → OneTenant d
      → OneTenant d'
  add_network_member-KeepsTenants name domain d d' n s fn fs same h t = record {
    present = λ network other m. elim (joined name domain d d' h network other m) [
      | inl old ↦
          subst (λ x. any (has_name network) x ≡ true) (sym networks) (t.present network other old)
      | inr (q, r) ↦
          subst (λ y. any (has_name y) d'.networks ≡ true) q
            (subst (λ x. any (has_name name) x ≡ true) (sym networks)
              (any_of_find (has_name name) d.networks n fn))
    ];
    same_owner = λ network other n' s' m f g. elim (joined name domain d d' h network other m) [
      | inl old ↦
          t.same_owner network other n' s' old (ap (find (has_name network)) (sym networks) ∙ f)
            (ap (find (has_domain other)) (sym sites) ∙ g)
      | inr (q, r) ↦ owners network other n' s' q r f g
    ];
  }
    where
      networks : d'.networks ≡ d.networks
      networks = joined-networks name domain d d' h

      sites : d'.sites ≡ d.sites
      sites = joined-sites name domain d d' h

      owned :
          (n' : NetworkRow) (s' : SiteRow)
          → some n ≡ some n'
          → some s ≡ some s'
          → s'.owner ≡ n'.owner
      owned n' s' a b = cc

      owners :
          (network other : String) (n' : NetworkRow) (s' : SiteRow)
          → name ≡ network
          → domain ≡ other
          → find (has_name network) d'.networks ≡ some n'
          → find (has_domain other) d'.sites ≡ some s'
          → s'.owner ≡ n'.owner
      owners network other n' s' q r f g =
          let f' = subst (λ y. find (has_name y) d'.networks ≡ some n') (sym q) f in
          let g' = subst (λ y. find (has_domain y) d'.sites ≡ some s') (sym r) g in
          owned n' s' (sym fn ∙ ap (find (has_name name)) (sym networks) ∙ f')
            (sym fs ∙ ap (find (has_domain domain)) (sym sites) ∙ g')
