-- ===== src/Process/Scaling/Stored.antt =====
-- The stored count and the containers after a scaling.
use apod.Base.{
  ℕ, ◌≤◌, ◌<◌, ◌≡◌, inl, inr, sym, ap, subst, ◌∙◌, String, none, some, List, [], ◌∷◌, ok, err,
  Error, ◌>>=◌, Result-cases, nat_eq, string_eq, find, any, arith, Bool-cases, find-none_of_any,
  find-update_where, find-append_none, find_of_any,
}
use apod.Process.{replica_container_name, reconcile_service}
use apod.Process.Calls.{Runs}
use apod.Process.Reconciliation.{reconcile_service_sound}
use apod.Process.Locks.{acquire}
use apod.Process.Scaling.{
  Sites, World, Scaling, is_for, max_replicas, set_process_replicas, get_process_replicas,
  site_services, check_worker, reconcile_and_store, scale_locked, scale_process,
}

module _ (world : World) (domain service : String) where
  -- The count of a service, read after it was stored.
  get-set_process_replicas :
      (n : ℕ) (rows rows' : List Scaling)
      → set_process_replicas world domain service n rows ≡ ok rows'
      → get_process_replicas world domain service rows' ≡ ok (some n)
  unfolding set_process_replicas get_process_replicas
  get-set_process_replicas n rows rows' h = elim (Bool-cases (any (is_for domain service) rows)) [
    | inl there ↦
        let (r, e) = find_of_any (is_for domain service) rows there in
        ground (
          arith,
          find-update_where (is_for domain service) (λ x. record x { replicas = n }) rows r
              (λ y k. k) e,
        )
    | inr gone ↦ ground (
      arith,
      find-append_none (is_for domain service) rows
          (record { site_domain = domain; service = service; replicas = n } ∷ [])
          (find-none_of_any (is_for domain service) rows gone),
      hit,
    )
  ]
    where
      hit :
          find
            (is_for domain service)
            (record { site_domain = domain; service = service; replicas = n } ∷ [])
          ≡ some (record { site_domain = domain; service = service; replicas = n })
      hit = ground (arith, string_eq.beq_iff domain domain, string_eq.beq_iff service service)

  -- What a reconciliation and the storing that succeed have done.
  reconcile_and_store-ok :
      (n : ℕ) (s : Sites)
      → (reconcile_and_store world domain service n s).1 ≡ ok tt
      → let s' = (reconcile_and_store world domain service n s).0 in
        ((reconcile_service world.fails domain service n s.docker).1 ≡ ok tt)
        × (s'.docker ≡ (reconcile_service world.fails domain service n s.docker).0)
        × (set_process_replicas world domain service n s.scaling ≡ ok (s'.scaling))
  unfolding reconcile_and_store
  reconcile_and_store-ok n s h =
      elim (Result-cases (set_process_replicas world domain service n s.scaling)) [
        | inl (x, e) ↦ absurd (failed x e)
        | inr (rows, e) ↦ (ground arith, ground arith, ground arith)
      ]
    where
      failed : (x : Error) → set_process_replicas world domain service n s.scaling ≡ err x → ⊥
      failed x e = ground arith

  -- What a scaling that succeeds has checked and done.
  record Completed (n : ℕ) (s s' : Sites) : Type 0 where
    bounded : n ≤ max_replicas
    free : s.locks domain ≡ none
    worker :
        (site_services world domain service s.sites >>= check_worker world domain service) ≡ ok tt
    reconciled : (reconcile_service world.fails domain service n s.docker).1 ≡ ok tt
    containers : s'.docker ≡ (reconcile_service world.fails domain service n s.docker).0
    stored : set_process_replicas world domain service n s.scaling ≡ ok (s'.scaling)

  scale_locked-ok :
      (n : ℕ) (s : Sites)
      → (scale_locked world domain service n s).1 ≡ ok tt
      → ((site_services world domain service s.sites >>= check_worker world domain service) ≡ ok tt)
        × ((reconcile_and_store world domain service n s).1 ≡ ok tt)
        × ((scale_locked world domain service n s).0
            ≡ (reconcile_and_store world domain service n s).0)
  unfolding scale_locked
  scale_locked-ok n s h = (ground arith, ground arith, ground arith)

  scale_process-ok :
      (n : ℕ) (s : Sites)
      → (scale_process world domain service n s).1 ≡ ok tt
      → let taken : Sites = record s { locks = (acquire domain "scaling" world.now s.locks).0 } in
        (n ≤ max_replicas)
        × (s.locks domain ≡ none)
        × ((scale_locked world domain service n taken).1 ≡ ok tt)
        × ((scale_process world domain service n s).0.docker
            ≡ (scale_locked world domain service n taken).0.docker)
        × ((scale_process world domain service n s).0.scaling
            ≡ (scale_locked world domain service n taken).0.scaling)
  unfolding scale_process acquire
  scale_process-ok n s h = (ground arith, ground arith, ground arith, ground arith, ground arith)

  scale_process-Completed :
      (n : ℕ) (s : Sites)
      → (scale_process world domain service n s).1 ≡ ok tt
      → Completed n s (scale_process world domain service n s).0
  scale_process-Completed n s h =
      let taken : Sites = record s { locks = (acquire domain "scaling" world.now s.locks).0 } in
      let (bounded, free, done, d, r) = scale_process-ok n s h in
      let (worker, run, same) = scale_locked-ok n taken done in
      let (reconciled, containers, stored) = reconcile_and_store-ok n taken run in
      record {
        bounded = bounded;
        free = free;
        worker = worker;
        reconciled = reconciled;
        containers = d ∙ ap (λ (x : Sites). x.docker) same ∙ containers;
        stored = stored ∙ ap ok (sym (r ∙ ap (λ (x : Sites). x.scaling) same));
      }

  -- A scaling succeeds only to a count of at most 20, while the site's lock is free, and for a service
  -- that the driver of the site has as a scalable worker. Then the count that is read back is the new one,
  -- and if it is positive every replica below it runs.
  pub scale_process_sound :
      (n : ℕ) (s : Sites)
      → (scale_process world domain service n s).1 ≡ ok tt
      → let s' = (scale_process world domain service n s).0 in
        (n ≤ max_replicas)
        × (s.locks domain ≡ none)
        × ((site_services world domain service s.sites >>= check_worker world domain service)
            ≡ ok tt)
        × (get_process_replicas world domain service s'.scaling ≡ ok (some n))
        × ((i : ℕ) → i < n → Runs (replica_container_name domain service i) s'.docker)
  scale_process_sound n s h =
      let c = scale_process-Completed n s h in
      (
        c.bounded,
        c.free,
        c.worker,
        get-set_process_replicas n s.scaling (scale_process world domain service n s).0.scaling
            c.stored,
        λ i l. subst (Runs (replica_container_name domain service i)) (sym c.containers) (
            (reconcile_service_sound world.fails domain service n s.docker (omega arith)
                c.reconciled).0
              i l),
      )

  -- A scaling that does not succeed leaves the stored counts as they were, also when it has started or
  -- removed some containers: a count is stored only after the containers are in place.
  pub scale_process-error :
      (n : ℕ) (s : Sites) (x : Error)
      → (scale_process world domain service n s).1 ≡ err x
      → (scale_process world domain service n s).0.scaling ≡ s.scaling
  unfolding scale_process scale_locked reconcile_and_store
  scale_process-error n s x h = ground arith
