-- ===== src/Process/Scaling/Locking.antt =====
-- The lock of a site around a scaling.
use apod.Base.{
  ℕ, ◌≤◌, ◌≡◌, inl, inr, refl, ap, ◌∙◌, String, some, ok, err, conflict, Result-cases, nat_eq,
  string_eq, ltb, arith, Bool-cases, Option-cases,
}
use apod.Process.Locks.{LockState, acquire, release}
use apod.Process.Scaling.{
  Sites, World, max_replicas, reconcile_and_store, scale_locked, scale_process,
}

module _ (world : World) (domain service : String) where
  reconcile_and_store-locks :
      (n : ℕ) (s : Sites) → (reconcile_and_store world domain service n s).0.locks ≡ s.locks
  unfolding reconcile_and_store
  reconcile_and_store-locks n s = ground arith

  scale_locked-locks :
      (n : ℕ) (s : Sites) → (scale_locked world domain service n s).0.locks ≡ s.locks
  unfolding scale_locked
  scale_locked-locks n s = ground (arith, reconcile_and_store-locks n s)

  release-acquire :
      (s : Sites) (k : String)
      → (acquire domain "scaling" world.now s.locks).1 ≡ ok tt
      → release domain (acquire domain "scaling" world.now s.locks).0 k ≡ s.locks k
  unfolding acquire release
  release-acquire s k h = elim (Option-cases (s.locks domain)) [
    | inr (st, e) ↦ absurd (held st e)
    | inl free ↦ ground (arith, free, string_eq.beq_iff k domain)
  ]
    where
      held : (st : LockState) → s.locks domain ≡ some st → ⊥
      held st e = ground arith

  -- However a scaling ends, every site's lock is afterwards as it was before. While another operation
  -- holds the lock of the site, a scaling to an admissible count is answered with a conflict and changes
  -- nothing.
  pub scale_process-locks :
      (n : ℕ) (s : Sites)
      → ((k : String) → (scale_process world domain service n s).0.locks k ≡ s.locks k)
        × ((st : LockState)
            → s.locks domain ≡ some st
            → n ≤ max_replicas
            → scale_process world domain service n s
              ≡ (s, err (conflict "%s is busy: %s (started %s ago) — try again in a moment")))
  unfolding scale_process
  scale_process-locks n s = (
    λ k. elim (Bool-cases (ltb max_replicas n)) [
      | inl big ↦ rw (big, scale_process) refl
      | inr small ↦ elim (Result-cases (acquire domain "scaling" world.now s.locks).1) [
        | inl (x, e) ↦ rw (small, e, scale_process) refl
        | inr (u, e) ↦
            let taken : Sites = record s {
              locks = (acquire domain "scaling" world.now s.locks).0;
            } in
            rw (small, e, scale_process)
              (ap (λ l. release domain l k) (scale_locked-locks n taken) ∙ release-acquire s k e)
      ]
    ],
    λ st e l. ground (arith, e),
  )
