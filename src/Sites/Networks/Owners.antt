-- ===== src/Sites/Networks/Owners.antt =====
-- What a new owner of a site does to its shared networks.
use apod.Base.{
  ◌≡◌, sym, ap, subst, ◌∙◌, inl, inr, Bool, true, false, String, Option, some, List, [], ◌∷◌, ok,
  ◌==◌, string_eq, find, any, update_where, arith, Bool-cases, find-update_where_other,
  find-update_where,
}
use apod.Db.{SiteStmt}
use apod.Db.Sites.{
  SiteDb, SiteRow, NetworkRow, MemberRow, has_domain, has_name, is_member, member_domain,
  update_site_owner,
}
use apod.Sites.Networks.Tenants.{OneTenant}

module _ (down : SiteStmt → Bool) where
  -- What a new owner of a site changes.
  module _ (domain owner : String) (d d' : SiteDb)
      (h : update_site_owner down domain owner d ≡ ok d') where
    owned-networks : d'.networks ≡ d.networks
    unfolding update_site_owner
    owned-networks = ground arith

    owned-members : d'.members ≡ d.members
    unfolding update_site_owner
    owned-members = ground arith

    other_site :
        (other : String)
        → (other == domain) ≡ false
        → find (has_domain other) d'.sites ≡ find (has_domain other) d.sites
    unfolding update_site_owner
    other_site other q = ground (
      arith,
      find-update_where_other (has_domain other) (has_domain domain)
          (λ s. record s { owner = owner }) d.sites (λ y e. different y e) (λ y e. different y e),
    )
      where
        different : (y : SiteRow) → has_domain domain y ≡ true → has_domain other y ≡ false
        different y e = ground (
          arith,
          string_eq.beq_iff y.domain domain,
          string_eq.beq_iff y.domain other,
          string_eq.beq_iff other domain,
        )

  alone-other :
      (members : List MemberRow) (network domain other : String)
      → any (member_domain domain) members ≡ false
      → any (is_member network other) members ≡ true
      → (other == domain) ≡ false
  unfolding any
  alone-other [] network domain other a m = ground arith
  alone-other (r ∷ members) network domain other a m = ground (
    arith,
    alone-other members network domain other,
    string_eq.beq_iff r.site_domain other,
    string_eq.beq_iff other domain,
    string_eq.beq_iff r.site_domain domain,
  )

  pub update_site_owner-KeepsTenants :
      (domain owner : String) (d d' : SiteDb)
      → any (member_domain domain) d.members ≡ false
      → update_site_owner down domain owner d ≡ ok d'
      → OneTenant d
      → OneTenant d'
  update_site_owner-KeepsTenants domain owner d d' alone h t = record {
    present = λ network other m.
        subst (λ x. any (has_name network) x ≡ true) (sym (owned-networks domain owner d d' h))
          (t.present network other (before network other m));
    same_owner = λ network other n s m f g.
        t.same_owner network other n s (before network other m)
          (ap (find (has_name network)) (sym (owned-networks domain owner d d' h)) ∙ f)
          (sym (
              other_site domain owner d d' h other
                (alone-other d.members network domain other alone (before network other m)))
            ∙ g);
  }
    where
      before :
          (network other : String)
          → any (is_member network other) d'.members ≡ true
          → any (is_member network other) d.members ≡ true
      before network other m =
          subst (λ x. any (is_member network other) x ≡ true) (owned-members domain owner d d' h) m

  -- The owner that the site has already.
  pub update_site_owner_same-KeepsTenants :
      (domain owner : String) (d d' : SiteDb) (r : SiteRow)
      → find (has_domain domain) d.sites ≡ some r
      → r.owner ≡ owner
      → update_site_owner down domain owner d ≡ ok d'
      → OneTenant d
      → OneTenant d'
  unfolding update_site_owner
  update_site_owner_same-KeepsTenants domain owner d d' r fr same h t = record {
    present = λ network other m.
        subst (λ x. any (has_name network) x ≡ true) (sym (owned-networks domain owner d d' h))
          (t.present network other (before network other m));
    same_owner = λ network other n s m f g.
        let f' = ap (find (has_name network)) (sym (owned-networks domain owner d d' h)) ∙ f in
        elim (Bool-cases (other == domain)) [
          | inr different ↦
              t.same_owner network other n s (before network other m) f'
                (sym (other_site domain owner d d' h other different) ∙ g)
          | inl that ↦
              let q = (string_eq.beq_iff other domain).0 that in
              joins n s (sym updated ∙ subst (λ y. find (has_domain y) d'.sites ≡ some s) q g) (
                t.same_owner network domain n r
                  (subst (λ y. any (is_member network y) d.members ≡ true) q
                    (before network other m))
                  f' fr)
        ];
  }
    where
      before :
          (network other : String)
          → any (is_member network other) d'.members ≡ true
          → any (is_member network other) d.members ≡ true
      before network other m =
          subst (λ x. any (is_member network other) x ≡ true) (owned-members domain owner d d' h) m

      sites :
          update_site_owner down domain owner d ≡ ok d'
          → d'.sites ≡ update_where (has_domain domain) (λ s. record s { owner = owner }) d.sites
      sites h = ground arith

      updated : find (has_domain domain) d'.sites ≡ some (record r { owner = owner })
      updated =
          ap (find (has_domain domain)) (sites h)
          ∙ find-update_where (has_domain domain) (λ s. record s { owner = owner }) d.sites r
              (λ y e. e) fr

      joins :
          (n : NetworkRow) (s : SiteRow)
          → ◌≡◌ {A = Option SiteRow} (some (record r { owner = owner })) (some s)
          → r.owner ≡ n.owner
          → s.owner ≡ n.owner
      joins n s a b = cc
