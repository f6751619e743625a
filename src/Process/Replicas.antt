-- ===== src/Process/Replicas.antt =====
-- The loop that starts the replicas.
use apod.Base.{
  ℕ, zero, suc, ◌+◌, ◌≤◌, ◌<◌, ◌≡◌, inl, inr, subst, Bool, true, false, String, Result, ok, err,
  Error, wrap, wrapping, Result-cases, ◌==◌, nat_eq, string_eq, nat_beq_iff, arith, Bool-cases,
}
use apod.Process.{
  Docker, Call, container_exists, create_container, replica_container_name, ensure_replica,
  ensure_replicas,
}
use apod.Process.Calls.{Runs, start-Runs, start-keeps, create-keeps}

wrapping-ok {ℓ} :
    {A : Type ℓ} (msg : String) (r : Result A) (a : A) → wrapping msg r ≡ ok a → r ≡ ok a
wrapping-ok msg (ok b) a h = h
wrapping-ok msg (err x) a h = absurd (no h)
  where
    no : err (wrap msg x) ≡ ok a → ⊥
    no q = cc

module _ (fails : Call → Bool) (domain service : String) where
  pub ensure_replica-Runs :
      (i : ℕ) (d : Docker)
      → (ensure_replica fails domain service i d).1 ≡ ok tt
      → Runs (replica_container_name domain service i) (ensure_replica fails domain service i d).0
  unfolding ensure_replica
  ensure_replica-Runs i d h =
      let name = replica_container_name domain service i in
      elim (Bool-cases (container_exists fails name d)) [
        | inl there ↦
            rw (there, ensure_replica)
              (start-Runs fails name d (wrapping-ok _ _ tt (rw (there, ensure_replica) at h)))
        | inr gone ↦ elim (Result-cases (create_container fails name d).1) [
          | inl (x, e) ↦ absurd (failed gone x e)
          | inr (u, e) ↦
              rw (gone, e, ensure_replica)
                (start-Runs fails name (create_container fails name d).0
                  (wrapping-ok _ _ tt (rw (gone, e, ensure_replica) at h)))
        ]
      ]
    where
      failed :
          container_exists fails (replica_container_name domain service i) d ≡ false
          → (x : Error)
          → (create_container fails (replica_container_name domain service i) d).1 ≡ err x
          → ⊥
      failed gone x e = ground arith

  pub ensure_replica-keeps :
      (i : ℕ) (m : String) (d : Docker)
      → Runs m d
      → Runs m (ensure_replica fails domain service i d).0
  unfolding ensure_replica
  ensure_replica-keeps i m d h =
      let name = replica_container_name domain service i in
      let made = create-keeps fails m name d (record { name = m; running = true }) h in
      ground (
        arith,
        start-keeps fails m name d h,
        made,
        start-keeps fails m name (create_container fails name d).0 made,
      )

  pub ensure_replicas-keeps :
      (n i : ℕ) (m : String) (d : Docker)
      → Runs m d
      → Runs m (ensure_replicas fails domain service n i d).0
  unfolding ensure_replicas
  ensure_replicas-keeps zero i m d h = h
  ensure_replicas-keeps (suc n) i m d h =
      let made = ensure_replica-keeps i m d h in
      ground (
        arith,
        made,
        ensure_replicas-keeps n (i + 1) m (ensure_replica fails domain service i d).0 made,
      )

  pub ensure_replicas-Runs :
      (n i j : ℕ) (d : Docker)
      → (ensure_replicas fails domain service n i d).1 ≡ ok tt
      → i ≤ j
      → j < i + n
      → Runs
          (replica_container_name domain service j)
          (ensure_replicas fails domain service n i d).0
  unfolding ensure_replicas
  ensure_replicas-Runs zero i j d h l m = absurd (omega arith)
  ensure_replicas-Runs (suc n) i j d h l m =
      let next : Docker = (ensure_replica fails domain service i d).0 in
      elim (Result-cases (ensure_replica fails domain service i d).1) [
        | inl (x, e) ↦ absurd (failed x e)
        | inr (u, e) ↦
            let rest : (ensure_replicas fails domain service n (i + 1) next).1 ≡ ok tt =
              ground arith in
            elim (Bool-cases (i == j)) [
              | inl same ↦
                  let runs = ensure_replica-Runs i d (ground arith) in
                  rw (e, ensure_replicas)
                    (subst
                      (λ k.
                        Runs (replica_container_name domain service k)
                          (ensure_replicas fails domain service n (i + 1) next).0)
                      ((nat_beq_iff i j).0 same)
                      (ensure_replicas-keeps n (i + 1) (replica_container_name domain service i)
                        next runs))
              | inr other ↦
                  rw (e, ensure_replicas)
                    (ensure_replicas-Runs n (i + 1) j next rest (ground (arith, nat_beq_iff i j))
                      (omega arith))
            ]
      ]
    where
      failed : (x : Error) → (ensure_replica fails domain service i d).1 ≡ err x → ⊥
      failed x e = ground arith
