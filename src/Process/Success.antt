-- ===== src/Process/Success.antt =====
-- While no call fails, a reconciliation succeeds.
use apod.Base.{
  ℕ, zero, suc, ◌+◌, ◌-◌, ◌≡◌, inl, inr, refl, ◌∙◌, Bool, true, false, String, [], ◌∷◌, ◌++◌, ok,
  nat_eq, string_eq, any, arith, Bool-cases,
}
use apod.Process.{
  Docker, Call, container_exists, start_container, stop_container, create_container,
  container_inspect, container_start, container_create, replica_inspect, replica_container_name,
  ensure_replica, ensure_replicas, scale_to, reconcile_service,
}
use apod.Process.Calls.{exists_in}
use apod.Process.Extras.{remove_extras-ok}

module _ (fails : Call → Bool) (w : (call : Call) → fails call ≡ false) where
  start-ok :
      (n : String) (d : Docker) → exists_in n d ≡ true → (start_container fails n d).1 ≡ ok tt
  unfolding start_container
  start-ok n d h = ground (arith, h, w (container_start n))

  any-last :
      (n : String) (d : Docker)
      → exists_in n (d ++ record { name = n; running = false } ∷ []) ≡ true
  unfolding any
  any-last n [] = ground (arith, string_eq.beq_iff n n)
  any-last n (c ∷ d) = ground (arith, any-last n d)

  create-ok :
      (n : String) (d : Docker)
      → exists_in n d ≡ false
      → ((create_container fails n d).1 ≡ ok tt)
        × (exists_in n (create_container fails n d).0 ≡ true)
  unfolding create_container
  create-ok n d h = (
    ground (arith, h, w (container_create n)),
    ground (arith, h, w (container_create n), any-last n d),
  )

  exists-container_exists : (n : String) (d : Docker) → container_exists fails n d ≡ exists_in n d
  unfolding container_exists
  exists-container_exists n d = ground (arith, w (container_inspect n))

  module _ (domain service : String) where
    ensure_replica-ok : (i : ℕ) (d : Docker) → (ensure_replica fails domain service i d).1 ≡ ok tt
    unfolding ensure_replica
    ensure_replica-ok i d =
        let name = replica_container_name domain service i in
        elim (Bool-cases (exists_in name d)) [
          | inl there ↦
              rw (exists-container_exists name d ∙ there, ensure_replica)
                (rw (start-ok name d there) refl)
          | inr gone ↦
              let (made, there) = create-ok name d gone in
              rw (exists-container_exists name d ∙ gone, made, ensure_replica)
                (rw (start-ok name (create_container fails name d).0 there) refl)
        ]

    ensure_replicas-ok :
        (n i : ℕ) (d : Docker) → (ensure_replicas fails domain service n i d).1 ≡ ok tt
    unfolding ensure_replicas
    ensure_replicas-ok zero i d = refl
    ensure_replicas-ok (suc n) i d = ground (
      arith,
      ensure_replica-ok i d,
      ensure_replicas-ok n (i + 1) (ensure_replica fails domain service i d).0,
    )

    -- While no call of the Docker API fails, the reconciliation of a worker whose first replica exists
    -- succeeds for every count: its loops end, and no name is taken twice.
    pub reconcile_service-ok :
        (n : ℕ) (d : Docker)
        → exists_in (replica_container_name domain service 0) d ≡ true
        → (reconcile_service fails domain service n d).1 ≡ ok tt
    unfolding reconcile_service scale_to
    reconcile_service-ok n d h =
        let name = replica_container_name domain service 0 in
        let base : Docker = (start_container fails name d).0 in
        let grown : Docker = (ensure_replicas fails domain service (n - 1) 1 base).0 in
        ground (
          arith,
          exists-container_exists name d,
          h,
          start-ok name d h,
          w (replica_inspect name),
          ensure_replicas-ok (n - 1) 1 base,
          remove_extras-ok fails domain service n grown w,
          remove_extras-ok fails domain service 1 (stop_container fails name d) w,
        )
