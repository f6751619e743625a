-- ===== src/Sites/Creation/Cleanup.antt =====
-- What a creation that fails leaves behind.
use apod.Base.{
  ◌≡◌, refl, sym, ap, subst, ◌∙◌, ◌⊎◌, inl, inr, false, Result, ok, err, Error, Result-cases, any,
  arith, Bool-cases, wrapping, any-delete_where,
}
use apod.Base.Effects.{◌>>=◌, ◌>>◌, query, bind-outcome}
use apod.Db.{SiteStmt}
use apod.Db.Sites.{SiteRow, has_domain, get_site, delete_site, delete_others, add_other}
use apod.Sites.{World, State, try_write, SiteEngine, with_lock}
use apod.Sites.Creation.Claims.{wrote, room, reclaim-lem, unwritten, claim-lem}
use apod.Sites.Locking.{with_lock-outcome}
use apod.Sites.Domains.{validate_opts}
use apod.Sites.Creation.{
  CreateSiteOpts, reclaimable, check_alias, check_collision, reclaim, claim, clear_rows, rollback,
  abort, provision, conclude, or_reclaim, install, create_locked, create_hosted_site,
}
use apod.Sites.Creation.Outcome.{
  labelled, abort-lem, finish-ok, check_alias-state, check_collision-state, rest, params, checks,
}

module _ (world : World) (o : CreateSiteOpts) where
  abbrev IsGone : State → Type 0
  IsGone s = any (has_domain o.domain) s.db.sites ≡ false

  delete-IsGone :
      (s : State)
      → world.down SiteStmt.delete_site ≡ false
      → IsGone (try_write (delete_site world.down o.domain) s).0
  unfolding delete_site
  delete-IsGone s up = ground (arith, any-delete_where (has_domain o.domain) s.db.sites)

  clear_rows-ok : (s : State) → (clear_rows world o s).1 ≡ ok tt
  unfolding clear_rows
  clear_rows-ok s = refl

  rollback-lem :
      (s : State)
      → rollback world o s ≡ try_write (delete_site world.down o.domain) (clear_rows world o s).0
  unfolding rollback
  rollback-lem s = rw (clear_rows-ok s, ◌>>=◌) refl

  add-IsGone :
      (s : State)
      → IsGone s
      → IsGone (try_write (add_other world.down SiteStmt.log_operation "operations" o.domain) s).0
  unfolding add_other
  add-IsGone s g = ground arith

  abort-IsGone :
      (x : Error) (s : State)
      → world.down SiteStmt.delete_site ≡ false
      → IsGone (abort world o x s).0
  abort-IsGone x s up =
      let end = (clear_rows world o (labelled world o s)).0 in
      subst (λ (y : State × Result (Unit {0})). IsGone y.0) (sym (abort-lem world o x s))
        (add-IsGone (rollback world o (labelled world o s)).0 (
          subst (λ (y : State × Result (Unit {0})). IsGone y.0)
            (sym (rollback-lem (labelled world o s))) (delete-IsGone end up)))

  -- A call that succeeds, changes nothing, or leaves no row of the domain.
  abbrev IsClean : State → State × Result (Unit {0}) → Type 0
  IsClean s y = (y.1 ≡ ok tt) ⊎ ((y.0 ≡ s) ⊎ IsGone y.0)

  room-IsGone : (s : State) → world.down SiteStmt.delete_site ≡ false → IsGone (room world o s)
  unfolding room delete_others
  room-IsGone s up = ground (arith, delete-IsGone s up)

  reclaim-IsClean :
      (x : Error) (r : Result SiteRow) (s : State)
      → world.down SiteStmt.delete_site ≡ false
      → IsClean s (reclaim world o x r s)
  unfolding reclaim
  reclaim-IsClean x (err z) s up = inr (inl refl)
  reclaim-IsClean x (ok existing) s up = elim (Bool-cases (reclaimable o existing)) [
    | inr other ↦ inr (inl (refused other))
    | inl may ↦
        subst (IsClean s) (sym (reclaim-lem world o x existing s may))
          (elim (Result-cases (wrote world o (room world o s)).1) [
            | inr (u, e) ↦ inl (ap (wrapping "create site record: %w") e)
            | inl (y, e) ↦ inr (
                inr
                  (subst IsGone (sym (unwritten world o (room world o s) y e)) (room-IsGone s up)))
          ])
  ]
    where
      refused : reclaimable o existing ≡ false → (reclaim world o x (ok existing) s).0 ≡ s
      refused other = ground arith

  or_reclaim-IsClean :
      (w : Result (Unit {0})) (s s1 : State) (r : Result SiteRow)
      → w ≡ (wrote world o s).1
      → s1 ≡ (wrote world o s).0
      → world.down SiteStmt.delete_site ≡ false
      → IsClean s (or_reclaim world o w r s1)
  unfolding or_reclaim
  or_reclaim-IsClean (ok u) s s1 r e same up = inl refl
  or_reclaim-IsClean (err x) s s1 r e same up =
      subst (λ y. IsClean y (reclaim world o x r s1)) (same ∙ unwritten world o s x (sym e))
        (reclaim-IsClean x r s1 up)

  claim-IsClean :
      (s : State) → world.down SiteStmt.delete_site ≡ false → IsClean s (claim world o s)
  claim-IsClean s up = subst (IsClean s) (sym (claim-lem world o s)) (
      or_reclaim-IsClean (wrote world o s).1 s (wrote world o s).0
        (get_site world.down o.domain (wrote world o s).0.db) refl refl up)

  conclude-IsClean :
      (r : Result (Unit {0})) (s s2 : State)
      → world.down SiteStmt.delete_site ≡ false
      → IsClean s (conclude world o r s2)
  unfolding conclude
  conclude-IsClean (ok u) s s2 up = inl (finish-ok world o s2)
  conclude-IsClean (err x) s s2 up = inr (inr (abort-IsGone x s2 up))

  install-IsClean :
      (s : State) → world.down SiteStmt.delete_site ≡ false → IsClean s (install world o s)
  unfolding install
  install-IsClean s up =
      bind-outcome (IsClean s) (claim world o) (λ u. rest world o) s
        (λ x e. elim (claim-IsClean s up) [
          | inl good ↦ absurd (both x (sym e ∙ good))
          | inr (inl same) ↦ inr (inl same)
          | inr (inr gone) ↦ inr (inr gone)
        ])
        (λ u e.
          conclude-IsClean (provision world o (claim world o s).0).1 s
            (provision world o (claim world o s).0).0 up)
    where
      both : (x : Error) → ◌≡◌ {A = Result (Unit {0})} (err x) (ok tt) → ⊥
      both x q = cc

  checks-IsClean :
      (s : State) → world.down SiteStmt.delete_site ≡ false → IsClean s (checks world o s)
  checks-IsClean s up =
      bind-outcome (IsClean s) (check_alias world o)
        (λ u. check_collision world o >> install world o) s
        (λ x e. inr (inl (check_alias-state world o s)))
        (λ u e.
          subst (λ y. IsClean s ((check_collision world o >> install world o) y))
            (sym (check_alias-state world o s))
            (bind-outcome (IsClean s) (check_collision world o) (λ u. install world o) s
              (λ x e. inr (inl (check_collision-state world o s)))
              (λ u e.
                subst (λ y. IsClean s (install world o y)) (sym (check_collision-state world o s))
                  (install-IsClean s up))))

  create_locked-IsClean :
      (s : State) → world.down SiteStmt.delete_site ≡ false → IsClean s (create_locked world o s)
  unfolding create_locked
  create_locked-IsClean s up =
      bind-outcome (IsClean s) (query (λ s. wrapping "load driver: %w" (world.load o.driver)))
        (λ driver. params world o driver >> checks world o) s (λ x e. inr (inl refl))
        (λ driver e.
          bind-outcome (IsClean s) (params world o driver) (λ u. checks world o) s
            (λ x e. inr (inl refl)) (λ u e. checks-IsClean s up))

  -- A creation that fails, while sites can be deleted, has changed nothing or leaves no row of the domain in
  -- the table of sites: no half-made site stays behind.
  pub create_hosted_site-error :
      (e : SiteEngine) (x : Error)
      → world.down SiteStmt.delete_site ≡ false
      → (create_hosted_site world o e).1 ≡ err x
      → ((create_hosted_site world o e).0.state ≡ e.state)
        ⊎ (any (has_domain o.domain) (create_hosted_site world o e).0.state.db.sites ≡ false)
  unfolding create_hosted_site
  create_hosted_site-error e x up h =
      let locked = with_lock world.now o.domain "provisioning" (create_locked world o) in
      let check = query (λ (e : SiteEngine). validate_opts o.domain o.owner o.repo o.branch) in
      elim (bind-outcome (λ (y : SiteEngine × Result (Unit {0})). IsClean e.state (y.0.state, y.1))
        check (λ u. locked) e (λ x e. inr (inl refl))
        (λ u good.
          with_lock-outcome world.now o.domain "provisioning" (create_locked world o)
            (IsClean e.state) e (λ x. inr (inl refl)) (create_locked-IsClean e.state up))) [
              | inl good ↦ absurd (failed (sym h ∙ good))
              | inr clean ↦ clean
            ]
    where
      failed : ◌≡◌ {A = Result (Unit {0})} (err x) (ok tt) → ⊥
      failed q = cc
