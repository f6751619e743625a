-- ===== src/Sites/Creation/Outcome.antt =====
-- Whose site it is that a creation makes.
use apod.Base.{
  ◌≡◌, refl, sym, ap, subst, ◌∙◌, inl, inr, true, false, some, Result, ok, err, Error,
  if◌then◌else◌, any, arith, Bool-cases, wrapping, any_of_find, find-update_where,
}
use apod.Base.Effects.{M, ◌>>=◌, ◌>>◌, query, attempt, bind-ok}
use apod.Db.{SiteStmt}
use apod.Db.Sites.{
  SiteRow, has_domain, list_sites, get_site, update_site_status, add_other, add_domain,
}
use apod.Sites.{World, Driver, State, try_write, SiteEngine, with_lock}
use apod.Sites.Creation.Claims.{mine, IsAsked, Claimed, claim-Claimed}
use apod.Sites.Locking.{with_lock-ok}
use apod.Sites.Domains.{validate_opts}
use apod.Sites.Params.{validate_driver_params}
use apod.Sites.Creation.{
  CreateSiteOpts, collides, reclaimable, check_alias, check_collision, claim, rollback, abort,
  provision, finish, register, conclude, install, create_locked, create_hosted_site,
}

module _ (world : World) (o : CreateSiteOpts) where
  -- What a creation that succeeds has made of its domain.
  pub record Owned (s s' : State) : Type 0 where
    pub row : SiteRow
    pub found : mine world o s'.db.sites ≡ some row
    pub asked : IsAsked world o row
    pub running : world.down SiteStmt.update_site_status ≡ false → row.status ≡ "running"
    pub before : (r : SiteRow) → mine world o s.db.sites ≡ some r → reclaimable o r ≡ true
    pub apart : world.down SiteStmt.list_sites ≡ false → any (collides o.domain) s.db.sites ≡ false

  provision-sites : (s : State) → (provision world o s).0.db.sites ≡ s.db.sites
  unfolding provision add_other
  provision-sites s = ground arith

  marked : State → State
  marked s = (try_write (update_site_status world.down o.domain "running") s).0

  register-sites : (r : Result SiteRow) (s : State) → (register world o r s).0.db.sites ≡ s.db.sites
  unfolding register add_domain
  register-sites (err x) s = refl
  register-sites (ok r) s = ground arith

  finish-sites : (s : State) → (finish world o s).0.db.sites ≡ (marked s).db.sites
  unfolding finish marked
  finish-sites s = register-sites (get_site world.down o.domain (marked s).db) (marked s)

  pub finish-ok : (s : State) → (finish world o s).1 ≡ ok tt
  unfolding finish register
  finish-ok s = ground arith

  marked-found :
      (s : State) (r : SiteRow)
      → mine world o s.db.sites ≡ some r
      → IsAsked world o r
      → (r' : SiteRow) × (mine world o (marked s).db.sites ≡ some r')
        × IsAsked world o r'
        × (world.down SiteStmt.update_site_status ≡ false → r'.status ≡ "running")
  unfolding marked update_site_status
  marked-found s r found asked = elim (Bool-cases (world.down SiteStmt.update_site_status)) [
    | inl w ↦ (r, ground arith, asked, λ v. cc)
    | inr w ↦ (
      record r { status = "running" },
      ground (
        arith,
        any_of_find (has_domain o.domain) s.db.sites r found,
        find-update_where (has_domain o.domain) (λ s. record s { status = "running" }) s.db.sites r
            (λ y e. e) found,
      ),
      asked,
      λ v. refl,
    )
  ]

  pub labelled : State → State
  labelled s =
      (try_write
        (if world.marks_error then update_site_status world.down o.domain "error" else λ d. ok d)
        s).0

  pub abort-lem :
      (x : Error) (s : State)
      → (abort world o x s) ≡ (
        (try_write
            (add_other world.down SiteStmt.log_operation "operations" o.domain)
            (rollback world o (labelled s)).0).0,
        err x,
      )
  unfolding abort labelled rollback
  abort-lem x s = refl

  -- The provisioned state has the claimed row.
  provision-Claimed :
      (s s1 : State) → Claimed world o s s1 → Claimed world o s (provision world o s1).0
  provision-Claimed s s1 c = record {
    row = c.row;
    found = ap (mine world o) (provision-sites s1) ∙ c.found;
    asked = c.asked;
    before = c.before;
  }

  conclude-Owned :
      (r : Result (Unit {0})) (s s2 : State)
      → Claimed world o s s2
      → (world.down SiteStmt.list_sites ≡ false → any (collides o.domain) s.db.sites ≡ false)
      → (conclude world o r s2).1 ≡ ok tt
      → Owned s (conclude world o r s2).0
  unfolding conclude
  conclude-Owned (ok u) s s2 c apart h =
      let (row, found, asked, running) = marked-found s2 c.row c.found c.asked in
      record {
        row = row;
        found = ap (mine world o) (finish-sites s2) ∙ found;
        asked = asked;
        running = running;
        before = c.before;
        apart = apart;
      }
  conclude-Owned (err x) s s2 c apart h =
      absurd (failed (ap (λ (y : State × Result (Unit {0})). y.1) (sym (abort-lem x s2)) ∙ h))
    where
      failed : ◌≡◌ {A = Result (Unit {0})} (err x) (ok tt) → ⊥
      failed q = cc

  abbrev pub rest : M State (Unit {0})
  rest = attempt (provision world o) >>= conclude world o

  install-Owned :
      (s : State)
      → (install world o s).1 ≡ ok tt
      → (world.down SiteStmt.list_sites ≡ false → any (collides o.domain) s.db.sites ≡ false)
      → Owned s (install world o s).0
  unfolding install
  install-Owned s h apart =
      let (u, h1, h2, q) = bind-ok (claim world o) (λ u. rest) s h in
      let s1 : State = (claim world o s).0 in
      subst (λ (y : State × Result (Unit {0})). Owned s y.0) (sym q)
        (conclude-Owned (provision world o s1).1 s (provision world o s1).0
          (provision-Claimed s s1 (claim-Claimed world o s h1)) apart h2)

  pub check_alias-state : (s : State) → (check_alias world o s).0 ≡ s
  unfolding check_alias
  check_alias-state s = ground arith

  pub check_collision-state : (s : State) → (check_collision world o s).0 ≡ s
  unfolding check_collision
  check_collision-state s = ground arith

  checked :
      (s : State) (u : Unit {0})
      → (check_collision world o s).1 ≡ ok u
      → world.down SiteStmt.list_sites ≡ false
      → any (collides o.domain) s.db.sites ≡ false
  unfolding check_collision list_sites
  checked s u h up = ground arith

  -- The checks before a claim, and the claim with what follows.
  abbrev pub params : Driver → M State (Unit {0})
  params driver = query (λ s. validate_driver_params world.is_float driver o.params)

  abbrev pub checks : M State (Unit {0})
  checks = check_alias world o >> (check_collision world o >> install world o)

  checks-Owned : (s : State) → (checks s).1 ≡ ok tt → Owned s (checks s).0
  checks-Owned s h =
      let (u, h1, h2, q) =
        bind-ok (check_alias world o) (λ u. check_collision world o >> install world o) s h in
      let same = check_alias-state s in
      let h3 = subst (λ y. ((check_collision world o >> install world o) y).1 ≡ ok tt) same h2 in
      let (v, h4, h5, q2) = bind-ok (check_collision world o) (λ u. install world o) s h3 in
      let same2 = check_collision-state s in
      let owned =
        install-Owned s (subst (λ y. (install world o y).1 ≡ ok tt) same2 h5) (checked s v h4) in
      let q3 =
        q
        ∙ ap (check_collision world o >> install world o) same
        ∙ q2
        ∙ ap (install world o) same2 in
      subst (λ (y : State × Result (Unit {0})). Owned s y.0) (sym q3) owned

  create_locked-Owned :
      (s : State) → (create_locked world o s).1 ≡ ok tt → Owned s (create_locked world o s).0
  unfolding create_locked
  create_locked-Owned s h =
      let load = query (λ (s : State). wrapping "load driver: %w" (world.load o.driver)) in
      let (driver, h1, h2, q) = bind-ok load (λ driver. params driver >> checks) s h in
      let (u, h3, h4, q2) = bind-ok (params driver) (λ u. checks) s h2 in
      subst (λ (y : State × Result (Unit {0})). Owned s y.0) (sym (q ∙ q2)) (checks-Owned s h4)

  -- After a creation that succeeds the site of the domain is the caller's, with the driver that was asked for,
  -- and has the status "running" if that could be written. A site of the domain that was there before was
  -- of the same owner and had the status "creating" or "error", as a failed creation leaves it, or one whose
  -- status "running" could not be written: nobody takes over a site of another owner. And no other site had
  -- the same internal name, if the sites could be listed.
  pub create_hosted_site-Owned :
      (e : SiteEngine)
      → (create_hosted_site world o e).1 ≡ ok tt
      → Owned e.state (create_hosted_site world o e).0.state
  unfolding create_hosted_site
  create_hosted_site-Owned e h =
      let locked = with_lock world.now o.domain "provisioning" (create_locked world o) in
      let check = query (λ (e : SiteEngine). validate_opts o.domain o.owner o.repo o.branch) in
      let (u, h1, h2, q) = bind-ok check (λ u. locked) e h in
      let (h3, same) =
        with_lock-ok world.now o.domain "provisioning" (create_locked world o) e tt h2 in
      subst (Owned e.state) (sym (ap (λ (x : SiteEngine × Result (Unit {0})). x.0.state) q ∙ same))
        (create_locked-Owned e.state h3)
