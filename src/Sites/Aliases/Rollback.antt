-- ===== src/Sites/Aliases/Rollback.antt =====
-- An alias that cannot be routed is not stored.
use apod.Base.{
  ◌≡◌, refl, sym, ap, ◌∙◌, ◌⊎◌, inl, inr, Bool, true, false, ◌&&◌, ◌||◌, String, [], ◌∷◌, ◌++◌,
  Result, ok, err, Error, ◌==◌, nat_eq, string_eq, any, delete_where, arith, wrapping,
}
use apod.Base.Effects.{query, bind-outcome}
use apod.Base.Rows.{delete_where-append_new, any-append, any-stricter}
use apod.Db.{SiteStmt}
use apod.Db.Sites.{SiteRow, DomainRow, add_domain, remove_domain_for_site}
use apod.Sites.{World, State, write, try_write, SiteEngine, with_lock}
use apod.Sites.Domains.{validate_domain}
use apod.Sites.Locking.{with_lock-outcome}
use apod.Sites.Aliases.{apply_alias_routing, route_alias, add_alias_locked, add_alias}
use apod.Sites.Aliases.Ownership.{
  routes, added, not_added, finish, insert, rest, apply_alias_routing-state, wrapping-ok, look,
  unused, row,
}

module _ (world : World) (domain alias : String) where
  -- A call that succeeds or leaves the rows of the domains as they were.
  abbrev IsUndone : State → State × Result (Unit {0}) → Type 0
  IsUndone s y = (y.1 ≡ ok tt) ⊎ (y.0.db.domains ≡ s.db.domains)

  -- The removal of the row that was just added.
  undone :
      (site : SiteRow) (s s1 : State)
      → world.down SiteStmt.remove_domain_for_site ≡ false
      → any (routes alias) s.db.domains ≡ false
      → s1.db.domains ≡ s.db.domains ++ row world domain alias site ∷ []
      → (try_write (remove_domain_for_site world.down site.id alias) s1).0.db.domains ≡ s.db.domains
  unfolding remove_domain_for_site
  undone site s s1 up free rows =
      removes (ap (any that) rows ∙ there)
      ∙ ap (delete_where that) rows
      ∙ delete_where-append_new that s.db.domains (row world domain alias site) before itself
    where
      that : DomainRow → Bool
      that r = r.site_id == site.id && r.domain == alias

      removes :
          any that s1.db.domains ≡ true
          → (try_write (remove_domain_for_site world.down site.id alias) s1).0.db.domains
            ≡ delete_where that s1.db.domains
      removes a = ground arith

      before : any that s.db.domains ≡ false
      before = any-stricter that (routes alias) s.db.domains (λ r e. ground arith) free

      itself : that (row world domain alias site) ≡ true
      itself = ground (arith, nat_eq.beq_iff site.id site.id, string_eq.beq_iff alias alias)

      either : (b c : Bool) → c ≡ true → b || c ≡ true
      either b c h = ground arith

      there : any that (s.db.domains ++ row world domain alias site ∷ []) ≡ true
      there =
          any-append that s.db.domains (row world domain alias site)
          ∙ either (any that s.db.domains) (that (row world domain alias site)) itself

  finish-IsUndone :
      (site : SiteRow) (s s1 : State) (r : Result (Unit {0}))
      → world.down SiteStmt.remove_domain_for_site ≡ false
      → any (routes alias) s.db.domains ≡ false
      → s1.db.domains ≡ s.db.domains ++ row world domain alias site ∷ []
      → IsUndone s (route_alias world site alias r s1)
  unfolding route_alias
  finish-IsUndone site s s1 (ok u) up free rows = inl refl
  finish-IsUndone site s s1 (err x) up free rows = inr (undone site s s1 up free rows)

  insert-IsUndone :
      (site : SiteRow) (s : State)
      → world.down SiteStmt.remove_domain_for_site ≡ false
      → IsUndone s (insert world domain alias site s)
  insert-IsUndone site s up =
      let s1 : State = (write (add_domain world.down site.id alias false) s).0 in
      let r = (write (add_domain world.down site.id alias false) s).1 in
      bind-outcome (IsUndone s) (query (λ (t : State). wrapping "add domain: %w" r))
        (λ u. finish world domain alias site) s1 (λ x e. inr (refused r x refl e))
        (λ u e.
          let (free, rows) =
            added world domain alias site s
              (wrapping-ok world domain alias "add domain: %w" r tt e) in
          finish-IsUndone site s (apply_alias_routing world site s1).0
            (apply_alias_routing world site s1).1 up free
            (ap (λ (y : State). y.db.domains) (apply_alias_routing-state world domain alias site s1)
              ∙ rows))
    where
      refused :
          (r : Result (Unit {0})) (x : Error)
          → (write (add_domain world.down site.id alias false) s).1 ≡ r
          → wrapping "add domain: %w" r ≡ err x
          → (write (add_domain world.down site.id alias false) s).0.db.domains ≡ s.db.domains
      refused (ok u) x q e = ground arith
      refused (err y) x q e = not_added world domain alias site s y q

  add_alias_locked-IsUndone :
      (s : State)
      → world.down SiteStmt.remove_domain_for_site ≡ false
      → IsUndone s (add_alias_locked world domain alias s)
  unfolding add_alias_locked
  add_alias_locked-IsUndone s up =
      bind-outcome (IsUndone s) (look world domain alias) (rest world domain alias) s
        (λ x e. inr refl)
        (λ site e.
          bind-outcome (IsUndone s) (unused world domain alias)
            (λ u. insert world domain alias site) s (λ x e. inr refl)
            (λ u e2. insert-IsUndone site s up))

  -- An alias that is refused leaves the rows of the domains as they were, if the row of an alias without a
  -- route can be removed: no domain is stored that is not routed.
  pub add_alias-error :
      (e : SiteEngine) (x : Error)
      → world.down SiteStmt.remove_domain_for_site ≡ false
      → (add_alias world domain alias e).1 ≡ err x
      → (add_alias world domain alias e).0.state.db.domains ≡ e.state.db.domains
  unfolding add_alias
  add_alias-error e x up h =
      let locked =
        with_lock world.now domain "updating domains" (add_alias_locked world domain alias) in
      elim (bind-outcome (λ (y : SiteEngine × Result (Unit {0})). IsUndone e.state (y.0.state, y.1))
        (query (λ (e : SiteEngine). validate_domain alias)) (λ u. locked) e (λ x e2. inr refl)
        (λ u e2.
          with_lock-outcome world.now domain "updating domains"
            (add_alias_locked world domain alias) (IsUndone e.state) e (λ x. inr refl)
            (add_alias_locked-IsUndone e.state up))) [
              | inl good ↦ absurd (failed (sym h ∙ good))
              | inr same ↦ same
            ]
    where
      failed : ◌≡◌ {A = Result (Unit {0})} (err x) (ok tt) → ⊥
      failed q = cc
