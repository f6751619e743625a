-- ===== src/Process/Reconciliation.antt =====
-- What the reconciliation of a worker leaves, whatever calls fail.
use apod.Base.{
  ℕ, ◌-◌, ◌≤◌, ◌<◌, ◌≡◌, inl, inr, sym, subst, ◌∙◌, Bool, false, String, ok, ◌==◌, nat_eq,
  string_eq, nat_beq_iff, arith, Bool-cases,
}
use apod.Process.{
  Docker, Call, start_container, container_inspect, replica_container_name, remove_extras,
  ensure_replicas, scale_to, reconcile_service,
}
use apod.Process.Names.{replica_container_name_inj}
use apod.Process.Calls.{Runs, exists_in, start-Runs}
use apod.Process.Extras.{remove_extras-lookup, remove_extras-gone}
use apod.Process.Replicas.{ensure_replicas-keeps, ensure_replicas-Runs}

module _ (fails : Call → Bool) (domain service : String) where
  -- The steps that a scaling to a positive count has taken when it succeeds.
  record Scaled (n : ℕ) (d d' : Docker) : Type 0 where
    started : (start_container fails (replica_container_name domain service 0) d).1 ≡ ok tt
    grown :
        (ensure_replicas fails domain service
          (n - 1)
          1
          (start_container fails (replica_container_name domain service 0) d).0).1
        ≡ ok tt
    shrunk :
        (remove_extras fails domain service n
          (ensure_replicas fails domain service
            (n - 1)
            1
            (start_container fails (replica_container_name domain service 0) d).0).0).1
        ≡ ok tt
    after :
        d'
        ≡ (remove_extras fails domain service n
            (ensure_replicas fails domain service
              (n - 1)
              1
              (start_container fails (replica_container_name domain service 0) d).0).0).0

  reconcile-Scaled :
      (n : ℕ) (d : Docker)
      → 1 ≤ n
      → (reconcile_service fails domain service n d).1 ≡ ok tt
      → Scaled n d (reconcile_service fails domain service n d).0
  unfolding reconcile_service scale_to
  reconcile-Scaled n d p h = record {
    started = ground arith;
    grown = ground arith;
    shrunk = ground arith;
    after = ground arith;
  }

  Scaled-Runs :
      (n i : ℕ) (d d' : Docker)
      → 1 ≤ n
      → i < n
      → Scaled n d d'
      → Runs (replica_container_name domain service i) d'
  Scaled-Runs n i d d' p l s =
      let name = replica_container_name domain service i in
      let base : Docker = (start_container fails (replica_container_name domain service 0) d).0 in
      let grown : Docker = (ensure_replicas fails domain service (n - 1) 1 base).0 in
      let runs : Runs name grown = elim (Bool-cases (i == 0)) [
        | inl z ↦ ensure_replicas-keeps fails domain service (n - 1) 1 name base (
            subst (λ k. Runs (replica_container_name domain service k) base)
              (sym ((nat_beq_iff i 0).0 z))
              (start-Runs fails (replica_container_name domain service 0) d s.started))
        | inr pos ↦
            ensure_replicas-Runs fails domain service (n - 1) 1 i base s.grown
              (ground (arith, nat_beq_iff i 0)) (omega arith)
      ] in
      subst (λ x. Runs name x) (sym s.after)
        (remove_extras-lookup fails domain service n name grown p
            (λ k q e. omega (arith, replica_container_name_inj domain service i k e))
          ∙ runs)

  -- A reconciliation to a positive count that succeeds leaves every replica below the count running,
  -- whatever calls failed on the way, and no replica of that index, unless its inspection fails.
  pub reconcile_service_sound :
      (n : ℕ) (d : Docker)
      → 1 ≤ n
      → (reconcile_service fails domain service n d).1 ≡ ok tt
      → ((i : ℕ)
          → i < n
          → Runs
              (replica_container_name domain service i)
              (reconcile_service fails domain service n d).0)
        × (fails (container_inspect (replica_container_name domain service n)) ≡ false
            → exists_in
                (replica_container_name domain service n)
                (reconcile_service fails domain service n d).0
              ≡ false)
  reconcile_service_sound n d p h =
      let s = reconcile-Scaled n d p h in
      let base : Docker = (start_container fails (replica_container_name domain service 0) d).0 in
      let grown : Docker = (ensure_replicas fails domain service (n - 1) 1 base).0 in
      (
        λ i l. Scaled-Runs n i d (reconcile_service fails domain service n d).0 p l s,
        λ w.
            subst (λ x. exists_in (replica_container_name domain service n) x ≡ false) (sym s.after)
              (remove_extras-gone fails domain service n grown p w s.shrunk),
      )
