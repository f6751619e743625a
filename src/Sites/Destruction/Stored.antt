-- ===== src/Sites/Destruction/Stored.antt =====
-- What is left of a destroyed site in the tables `uptime_checks`, `operations`, `process_scaling` and
-- `site_secrets`.
use apod.Base.{
  ◌≡◌, refl, sym, ap, subst, ◌∙◌, inl, inr, Bool, false, ◌&&◌, String, Result, ok, err, Error,
  Result-cases, if◌then◌else◌, ◌==◌, string_eq, any, arith, Bool-cases, wrapping, any-delete_where,
  any-delete_where_none,
}
use apod.Base.Effects.{◌>>◌, query, bind-ok}
use apod.Db.{SiteStmt}
use apod.Db.Sites.{
  SiteRow, ChildRow, is_of, get_site, delete_site, delete_site_child_data, delete_others,
  remove_site_from_all_networks,
}
use apod.Sites.{World, State, is_compose_site, write, try_write}
use apod.Sites.Destruction.Containers.{remove_containers-db}
use apod.Sites.Destruction.{
  forget, delete_rows, compose_down, destroy_compose, remove_containers, delete_error,
  destroy_native, destroy_as, destroy_locked,
}

module _ (world : World) (domain : String) where
  -- A row about the domain in the table of that name.
  abbrev pub stored_as : String → ChildRow → Bool
  stored_as kind r = r.kind == kind && is_of domain r

  -- Nothing that a table lacked comes back.
  abbrev Fewer : State → State → Type 0
  Fewer s s' =
      (kind : String)
      → any (stored_as kind) s.db.others ≡ false
      → any (stored_as kind) s'.db.others ≡ false

  -- One of the four deletions.
  unfoldable drop_others : SiteStmt → String → State → State
  unfolding delete_others
  drop_others st kind s = (try_write (delete_others world.down st kind domain) s).0

  drop_others-gone :
      (st : SiteStmt) (kind : String) (s : State)
      → world.down st ≡ false
      → any (stored_as kind) (drop_others st kind s).db.others ≡ false
  unfolding drop_others delete_others
  drop_others-gone st kind s w = ground (arith, any-delete_where (stored_as kind) s.db.others)

  drop_others-Fewer : (st : SiteStmt) (kind : String) (s : State) → Fewer s (drop_others st kind s)
  unfolding drop_others delete_others
  drop_others-Fewer st kind s k none =
      ground (arith, any-delete_where_none (stored_as k) (stored_as kind) s.db.others none)

  -- The counts of the workers and the secrets once they are deleted, and nothing else that is new.
  record Dropped (s s' : State) : Type 0 where
    fewer : Fewer s s'
    scaling :
        world.down SiteStmt.delete_process_scaling ≡ false
        → any (stored_as "process_scaling") s'.db.others ≡ false
    secrets :
        world.down SiteStmt.delete_site_secrets ≡ false
        → any (stored_as "site_secrets") s'.db.others ≡ false

  module _ (purge : Bool) where
    abbrev without_secrets : State → State
    without_secrets s =
        drop_others SiteStmt.delete_site_secrets "site_secrets"
          (drop_others SiteStmt.delete_process_scaling "process_scaling" s)

    forget-others :
        (s : State) → (forget world domain purge s).0.db.others ≡ (without_secrets s).db.others
    unfolding forget drop_others delete_others remove_site_from_all_networks delete_site_child_data
    forget-others s = ground arith

    forget-Dropped : (s : State) → Dropped s (forget world domain purge s).0
    forget-Dropped s = record {
      fewer = λ k none. rw (forget-others s) (
          drop_others-Fewer SiteStmt.delete_site_secrets "site_secrets" s1 k
            (drop_others-Fewer SiteStmt.delete_process_scaling "process_scaling" s k none));
      scaling = λ w. rw (forget-others s) (
          drop_others-Fewer SiteStmt.delete_site_secrets "site_secrets" s1 "process_scaling"
            (drop_others-gone SiteStmt.delete_process_scaling "process_scaling" s w));
      secrets = λ w.
          rw (forget-others s) (drop_others-gone SiteStmt.delete_site_secrets "site_secrets" s1 w);
    }
      where
        s1 : State
        s1 = drop_others SiteStmt.delete_process_scaling "process_scaling" s

    delete_site-others :
        (s : State) → (write (delete_site world.down domain) s).0.db.others ≡ s.db.others
    unfolding delete_site
    delete_site-others s = ground arith

    Dropped-from : (s s1 s' : State) → s1.db.others ≡ s.db.others → Dropped s1 s' → Dropped s s'
    Dropped-from s s1 s' same d = record {
      fewer = λ k none. d.fewer k (subst (λ x. any (stored_as k) x ≡ false) (sym same) none);
      scaling = d.scaling;
      secrets = d.secrets;
    }

    delete_rows-Dropped :
        (error_of : Result (Unit {0}) → Result (Unit {0})) (s : State)
        → (delete_rows world domain purge error_of s).1 ≡ ok tt
        → Dropped s (delete_rows world domain purge error_of s).0
    unfolding delete_rows
    delete_rows-Dropped error_of s h =
        elim (Result-cases (error_of (write (delete_site world.down domain) s).1)) [
          | inl (x, e) ↦ absurd (stuck x (rw e at h))
          | inr (u, e) ↦
              let s1 = (write (delete_site world.down domain) s).0 in
              rw e (
                Dropped-from s s1 (forget world domain purge s1).0 (delete_site-others s)
                  (forget-Dropped s1))
        ]
      where
        stuck : (x : Error) → ◌≡◌ {A = Result (Unit {0})} (err x) (ok tt) → ⊥
        stuck x q = cc

    destroy_native-Dropped :
        (site : Result SiteRow) (s : State)
        → (destroy_native world domain purge site s).1 ≡ ok tt
        → Dropped s (destroy_native world domain purge site s).0
    unfolding destroy_native
    destroy_native-Dropped site s h =
        let files = query (λ (s : State).
          if purge then wrapping "remove site data: %w" (world.purge domain) else ok tt) in
        let rows = delete_rows world domain purge (delete_error world domain purge site) in
        let (u, h1, h2, e1) =
          bind-ok (remove_containers world domain purge) (λ u. rows >> files) s h in
        let s1 : State = (remove_containers world domain purge s).0 in
        let (v, h3, h4, e2) = bind-ok rows (λ v. files) s1 h2 in
        subst (Dropped s) (sym (ap (λ (x : State × Result (Unit {0})). x.0) (e1 ∙ e2))) (
          Dropped-from s s1 (rows s1).0
            (ap (λ d. d.others) (remove_containers-db world domain purge s))
            (delete_rows-Dropped (delete_error world domain purge site) s1 h3))

    destroy_as-Dropped :
        (site : Result SiteRow) (s : State)
        → (destroy_as world domain purge site s).1 ≡ ok tt
        → Dropped s (destroy_as world domain purge site s).0
    unfolding destroy_as destroy_compose compose_down
    destroy_as-Dropped site s h = elim (Bool-cases (is_compose_site world site)) [
      | inl c ↦ rw c (
          Dropped-from s (compose_down world domain purge s)
            (destroy_compose world domain purge s).0 refl
            (delete_rows-Dropped (wrapping "delete site record: %w")
              (compose_down world domain purge s) (rw c at h)))
      | inr c ↦ rw c (destroy_native-Dropped site s (rw c at h))
    ]

    -- None of the four tables has a row of the domain, where the deletions run.
    pub record Cleared (s : State) : Type 0 where
      pub uptime :
          world.down SiteStmt.delete_uptime_check ≡ false
          → any (stored_as "uptime_checks") s.db.others ≡ false
      pub operations :
          world.down SiteStmt.delete_operations ≡ false
          → any (stored_as "operations") s.db.others ≡ false
      pub scaling :
          world.down SiteStmt.delete_process_scaling ≡ false
          → any (stored_as "process_scaling") s.db.others ≡ false
      pub secrets :
          world.down SiteStmt.delete_site_secrets ≡ false
          → any (stored_as "site_secrets") s.db.others ≡ false

    pub destroy_locked-Cleared :
        (s : State)
        → (destroy_locked world domain purge s).1 ≡ ok tt
        → Cleared (destroy_locked world domain purge s).0
    unfolding destroy_locked drop_others
    destroy_locked-Cleared s h =
        let s1 : State = drop_others SiteStmt.delete_uptime_check "uptime_checks" s in
        let s2 : State = drop_others SiteStmt.delete_operations "operations" s1 in
        let d = destroy_as-Dropped (get_site world.down domain s2.db) s2 h in
        record {
          uptime = λ w. d.fewer "uptime_checks" (
              drop_others-Fewer SiteStmt.delete_operations "operations" s1 "uptime_checks"
                (drop_others-gone SiteStmt.delete_uptime_check "uptime_checks" s w));
          operations = λ w.
              d.fewer "operations" (drop_others-gone SiteStmt.delete_operations "operations" s1 w);
          scaling = d.scaling;
          secrets = d.secrets;
        }
