-- ===== src/Sites/Destruction/Gone.antt =====
-- What is left of a destroyed site.
use apod.Base.{
  ◌≡◌, refl, sym, ap, subst, ◌∙◌, inl, inr, Bool, false, String, Result, ok, err, Error,
  Result-cases, if◌then◌else◌, find, any, arith, Bool-cases, wrapping, any-delete_where,
  find_of_any, some,
}
use apod.Base.Effects.{◌>>◌, query, bind-ok}
use apod.Db.{SiteStmt}
use apod.Db.Sites.{
  SiteDb, SiteRow, has_domain, is_of, member_domain, get_site, delete_site, delete_site_child_data,
  delete_others, remove_site_from_all_networks,
}
use apod.Sites.{World, State, SiteCall, of_site, is_compose_site, write, SiteEngine, with_lock}
use apod.Sites.Domains.{validate_domain}
use apod.Sites.Locking.{with_lock-ok}
use apod.Sites.Destruction.Containers.{remove_containers-gone, remove_containers-db}
use apod.Sites.Destruction.Stored.{Cleared, destroy_locked-Cleared}
use apod.Sites.Destruction.{
  forget, delete_rows, compose_down, destroy_compose, remove_containers, delete_error,
  destroy_native, destroy_as, destroy_locked, destroy_site,
}

module _ (world : World) (domain : String) (purge : Bool) where
  -- What the last deletions leave alone, and what they leave nothing of.
  record Forgotten (s s' : State) : Type 0 where
    containers : s'.containers ≡ s.containers
    sites : s'.db.sites ≡ s.db.sites
    members :
        world.down SiteStmt.remove_site_from_all_networks ≡ false
        → any (member_domain domain) s'.db.members ≡ false
    children :
        world.down SiteStmt.delete_site_child_data ≡ false
        → any (is_of domain) s'.db.children ≡ false

  forget-Forgotten : (s : State) → Forgotten s (forget world domain purge s).0
  unfolding forget delete_others remove_site_from_all_networks delete_site_child_data
  forget-Forgotten s = record {
    containers = ground arith;
    sites = ground arith;
    members = λ w. ground (arith, any-delete_where (member_domain domain) s.db.members);
    children = λ w. ground (arith, any-delete_where (is_of domain) s.db.children);
  }

  forget-ok : (s : State) → (forget world domain purge s).1 ≡ ok tt
  unfolding forget
  forget-ok s = refl

  -- The tables after a destruction, and the containers as before the row was removed.
  record Deleted (s s' : State) : Type 0 where
    containers : s'.containers ≡ s.containers
    sites : any (has_domain domain) s'.db.sites ≡ false
    members :
        world.down SiteStmt.remove_site_from_all_networks ≡ false
        → any (member_domain domain) s'.db.members ≡ false
    children :
        world.down SiteStmt.delete_site_child_data ≡ false
        → any (is_of domain) s'.db.children ≡ false

  delete-containers :
      (s : State) → (write (delete_site world.down domain) s).0.containers ≡ s.containers
  unfolding delete_site
  delete-containers s = ground arith

  delete-sites :
      (s : State)
      → (write (delete_site world.down domain) s).1 ≡ ok tt
      → any (has_domain domain) (write (delete_site world.down domain) s).0.db.sites ≡ false
  unfolding delete_site
  delete-sites s h = ground (arith, any-delete_where (has_domain domain) s.db.sites)

  delete-missing :
      (s : State)
      → any (has_domain domain) s.db.sites ≡ false
      → (write (delete_site world.down domain) s).0 ≡ s
  unfolding delete_site
  delete-missing s h = ground arith

  delete_rows-Deleted :
      (error_of : Result (Unit {0}) → Result (Unit {0})) (s : State)
      → (error_of (write (delete_site world.down domain) s).1 ≡ ok tt
          → any (has_domain domain) (write (delete_site world.down domain) s).0.db.sites ≡ false)
      → (delete_rows world domain purge error_of s).1 ≡ ok tt
      → Deleted s (delete_rows world domain purge error_of s).0
  unfolding delete_rows
  delete_rows-Deleted error_of s gone h =
      elim (Result-cases (error_of (write (delete_site world.down domain) s).1)) [
        | inl (x, e) ↦ absurd (stuck x (rw e at h))
        | inr (u, e) ↦
            let s1 = (write (delete_site world.down domain) s).0 in
            let f = forget-Forgotten s1 in
            rw e (record {
              containers = f.containers ∙ delete-containers s;
              sites = subst (λ x. any (has_domain domain) x ≡ false) (sym f.sites) (gone e);
              members = f.members;
              children = f.children;
            })
      ]
    where
      stuck : (x : Error) → ◌≡◌ {A = Result (Unit {0})} (err x) (ok tt) → ⊥
      stuck x q = cc

  -- A site that was looked up and whose removal reports no error has no row afterwards.
  missing :
      (d : SiteDb) (x : Error)
      → world.down SiteStmt.get_site ≡ false
      → get_site world.down domain d ≡ err x
      → any (has_domain domain) d.sites ≡ false
  unfolding get_site
  missing d x up e = elim (Bool-cases (any (has_domain domain) d.sites)) [
    | inr n ↦ n
    | inl y ↦ let (r, f) = find_of_any (has_domain domain) d.sites y in absurd (found r f)
  ]
    where
      found : (r : SiteRow) → find (has_domain domain) d.sites ≡ some r → ⊥
      found r f = ground arith

  removed :
      (site : Result SiteRow) (s : State)
      → site ≡ get_site world.down domain s.db
      → world.down SiteStmt.get_site ≡ false
      → delete_error world domain purge site (write (delete_site world.down domain) s).1 ≡ ok tt
      → any (has_domain domain) (write (delete_site world.down domain) s).0.db.sites ≡ false
  removed (err x) s known up h =
      let none_left = missing s.db x up (sym known) in
      subst (λ (x : State). any (has_domain domain) x.db.sites ≡ false)
        (sym (delete-missing s none_left)) none_left
  removed (ok r) s known up h =
      delete-sites s (unwrapped (write (delete_site world.down domain) s).1 h)
    where
      unwrapped : (w : Result (Unit {0})) → wrapping "delete site record: %w" w ≡ ok tt → w ≡ ok tt
      unwrapped (ok u) e = refl
      unwrapped (err x) e = cc

  destroy_native-Deleted :
      (site : Result SiteRow) (s : State)
      → site ≡ get_site world.down domain s.db
      → world.down SiteStmt.get_site ≡ false
      → (destroy_native world domain purge site s).1 ≡ ok tt
      → Deleted
          (remove_containers world domain purge s).0
          (destroy_native world domain purge site s).0
        × (any (of_site domain) (remove_containers world domain purge s).0.containers ≡ false)
  unfolding destroy_native
  destroy_native-Deleted site s known up h =
      let files = query (λ (s : State).
        if purge then wrapping "remove site data: %w" (world.purge domain) else ok tt) in
      let rows = delete_rows world domain purge (delete_error world domain purge site) in
      let (u, h1, h2, e1) =
        bind-ok (remove_containers world domain purge) (λ u. rows >> files) s h in
      let s1 : State = (remove_containers world domain purge s).0 in
      let (v, h3, h4, e2) = bind-ok rows (λ v. files) s1 h2 in
      let known1 : site ≡ get_site world.down domain s1.db =
        known ∙ ap (get_site world.down domain) (sym (remove_containers-db world domain purge s)) in
      (
        subst (Deleted s1) (sym (ap (λ (x : State × Result (Unit {0})). x.0) (e1 ∙ e2))) (
            delete_rows-Deleted (delete_error world domain purge site) s1
              (removed site s1 known1 up) h3),
        remove_containers-gone world domain purge s h1,
      )

  destroy_compose-Deleted :
      (s : State)
      → (destroy_compose world domain purge s).1 ≡ ok tt
      → Deleted (compose_down world domain purge s) (destroy_compose world domain purge s).0
  unfolding destroy_compose
  destroy_compose-Deleted s h =
      delete_rows-Deleted (wrapping "delete site record: %w") (compose_down world domain purge s)
        (λ e. delete-sites (compose_down world domain purge s) (
          unwrapped (write (delete_site world.down domain) (compose_down world domain purge s)).1
            e))
        h
    where
      unwrapped : (w : Result (Unit {0})) → wrapping "delete site record: %w" w ≡ ok tt → w ≡ ok tt
      unwrapped (ok u) e = refl
      unwrapped (err x) e = cc

  -- The sites, the memberships, the tables of `childTablesByDomain` and the containers without the domain.
  pub record Emptied (s : State) : Type 0 where
    pub sites : any (has_domain domain) s.db.sites ≡ false
    pub members :
        world.down SiteStmt.remove_site_from_all_networks ≡ false
        → any (member_domain domain) s.db.members ≡ false
    pub children :
        world.down SiteStmt.delete_site_child_data ≡ false
        → any (is_of domain) s.db.children ≡ false
    pub containers :
        world.fails (SiteCall.compose_down domain) ≡ false
        → any (of_site domain) s.containers ≡ false

  down-containers :
      (s : State)
      → world.fails (SiteCall.compose_down domain) ≡ false
      → any (of_site domain) (compose_down world domain purge s).containers ≡ false
  unfolding compose_down
  down-containers s w = ground (arith, any-delete_where (of_site domain) s.containers)

  vanish :
      (s s' : State)
      → Deleted s s'
      → (world.fails (SiteCall.compose_down domain) ≡ false
          → any (of_site domain) s.containers ≡ false)
      → Emptied s'
  vanish s s' d c = record {
    sites = d.sites;
    members = d.members;
    children = d.children;
    containers = λ w. subst (λ x. any (of_site domain) x ≡ false) (sym d.containers) (c w);
  }

  destroy_as-Emptied :
      (site : Result SiteRow) (s : State)
      → site ≡ get_site world.down domain s.db
      → world.down SiteStmt.get_site ≡ false
      → (destroy_as world domain purge site s).1 ≡ ok tt
      → Emptied (destroy_as world domain purge site s).0
  unfolding destroy_as
  destroy_as-Emptied site s known up h = elim (Bool-cases (is_compose_site world site)) [
    | inl c ↦ rw c (
        vanish (compose_down world domain purge s) (destroy_compose world domain purge s).0
          (destroy_compose-Deleted s (rw c at h)) (down-containers s))
    | inr c ↦
        let (d, gone) = destroy_native-Deleted site s known up (rw c at h) in
        rw c (
          vanish (remove_containers world domain purge s).0
            (destroy_native world domain purge site s).0 d (λ w. gone))
  ]

  -- Nothing of the domain is left, where the deletions run.
  pub record Vanished (s : State) : Type 0 where
    pub emptied : Emptied s
    pub cleared : Cleared world domain purge s

  destroy_locked-Vanished :
      (s : State)
      → world.down SiteStmt.get_site ≡ false
      → (destroy_locked world domain purge s).1 ≡ ok tt
      → Vanished (destroy_locked world domain purge s).0
  unfolding destroy_locked
  destroy_locked-Vanished s up h = record {
    emptied = destroy_as-Emptied _ _ refl up h;
    cleared = destroy_locked-Cleared world domain purge s h;
  }

  -- A destruction that succeeds, while the site can be looked up, leaves no row of the site; no membership in
  -- a shared network, no row of the tables of `childTablesByDomain`, and no row of `uptime_checks`, `operations`,
  -- `process_scaling` and `site_secrets` that is about the domain, if the deletion of each runs; and no
  -- container of the site, unless `docker compose down` failed.
  pub destroy_site-Vanished :
      (e : SiteEngine)
      → world.down SiteStmt.get_site ≡ false
      → (destroy_site world domain purge e).1 ≡ ok tt
      → Vanished (destroy_site world domain purge e).0.state
  unfolding destroy_site
  destroy_site-Vanished e up h =
      let locked = with_lock world.now domain "destroying" (destroy_locked world domain purge) in
      let (u, h1, h2, q) =
        bind-ok (query (λ (e : SiteEngine). validate_domain domain)) (λ u. locked) e h in
      let (h3, same) =
        with_lock-ok world.now domain "destroying" (destroy_locked world domain purge) e tt h2 in
      subst Vanished (sym (ap (λ (x : SiteEngine × Result (Unit {0})). x.0.state) q ∙ same))
        (destroy_locked-Vanished e.state up h3)
