-- ===== src/Process/Template.antt =====
-- The first replica of a worker, which every other is copied from.
use apod.Base.{
  ℕ, zero, suc, ◌+◌, ◌-◌, ◌≤◌, ◌≡◌, ◌∙◌, Bool, true, String, arith, any_of_find, find_of_any,
}
use apod.Process.{
  Docker, Call, is_container, start_container, stop_container, create_container,
  replica_container_name, remove_extras, ensure_replica, ensure_replicas, scale_to,
  reconcile_service,
}
use apod.Process.Names.{replica_container_name_inj}
use apod.Process.Calls.{exists_in, start-exists, stop-exists, create-keeps}
use apod.Process.Extras.{remove_extras-lookup}

module _ (fails : Call → Bool) (domain service : String) where
  create-exists :
      (m n : String) (d : Docker)
      → exists_in m d ≡ true
      → exists_in m (create_container fails n d).0 ≡ true
  create-exists m n d h =
      let (c, e) = find_of_any (is_container m) d h in
      any_of_find (is_container m) (create_container fails n d).0 c (create-keeps fails m n d c e)

  ensure_replica-exists :
      (i : ℕ) (m : String) (d : Docker)
      → exists_in m d ≡ true
      → exists_in m (ensure_replica fails domain service i d).0 ≡ true
  unfolding ensure_replica
  ensure_replica-exists i m d h =
      let name = replica_container_name domain service i in
      ground (
        arith,
        h,
        start-exists fails m name d,
        create-exists m name d h,
        start-exists fails m name (create_container fails name d).0,
      )

  pub ensure_replicas-exists :
      (n i : ℕ) (m : String) (d : Docker)
      → exists_in m d ≡ true
      → exists_in m (ensure_replicas fails domain service n i d).0 ≡ true
  unfolding ensure_replicas
  ensure_replicas-exists zero i m d h = h
  ensure_replicas-exists (suc n) i m d h =
      let made = ensure_replica-exists i m d h in
      ground (
        arith,
        made,
        ensure_replicas-exists n (i + 1) m (ensure_replica fails domain service i d).0 made,
      )

  remove_extras-exists :
      (from : ℕ) (d : Docker)
      → 1 ≤ from
      → exists_in (replica_container_name domain service 0) d ≡ true
      → exists_in
          (replica_container_name domain service 0)
          (remove_extras fails domain service from d).0
        ≡ true
  remove_extras-exists from d p h =
      let name = replica_container_name domain service 0 in
      let (c, e) = find_of_any (is_container name) d h in
      any_of_find (is_container name) (remove_extras fails domain service from d).0 c (
        remove_extras-lookup fails domain service from name d p
          (λ k q s. omega (arith, replica_container_name_inj domain service 0 k s))
        ∙ e)

  scale_to-exists :
      (n : ℕ) (d : Docker)
      → 1 ≤ n
      → exists_in (replica_container_name domain service 0) d ≡ true
      → exists_in (replica_container_name domain service 0) (scale_to fails domain service n d).0
        ≡ true
  unfolding scale_to
  scale_to-exists n d p h =
      let name = replica_container_name domain service 0 in
      let base : Docker = (start_container fails name d).0 in
      let grown : Docker = (ensure_replicas fails domain service (n - 1) 1 base).0 in
      let in_base : exists_in name base ≡ true = start-exists fails name name d ∙ h in
      let in_grown = ensure_replicas-exists (n - 1) 1 name base in_base in
      ground (arith, in_base, in_grown, remove_extras-exists n grown p in_grown)

  -- The first replica, which the others are copied from, is never removed: if it exists before a
  -- reconciliation to any count, also to 0, it exists afterwards, whether the reconciliation succeeds or
  -- ends with an error, and whatever calls fail.
  pub reconcile_service-exists :
      (n : ℕ) (d : Docker)
      → exists_in (replica_container_name domain service 0) d ≡ true
      → exists_in
          (replica_container_name domain service 0)
          (reconcile_service fails domain service n d).0
        ≡ true
  unfolding reconcile_service
  reconcile_service-exists n d h =
      let name = replica_container_name domain service 0 in
      let stopped = stop-exists fails name name d ∙ h in
      ground (
        arith,
        h,
        remove_extras-exists 1 (stop_container fails name d) (omega arith) stopped,
        scale_to-exists n d,
      )
