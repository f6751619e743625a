-- ===== src/Process/Extras.antt =====
-- Which containers a reconciliation removes.
use apod.Base.{
  ℕ, zero, suc, ◌+◌, ◌≤◌, ◌<◌, ◌≡◌, ◌≢◌, inl, inr, refl, Bool, true, false, String, ok, err, Error,
  Result-cases, if◌then◌else◌, length, ltb, arith, Bool-cases, any-delete_where_none,
  length-update_where, length-delete_where-any,
}
use apod.Process.{
  container_stop, container_remove, Docker, Call, is_container, container_exists, stop_container,
  remove_container, container_inspect, replica_container_name, remove_from, remove_extras,
}
use apod.Process.Calls.{
  lookup, exists_in, update-exists, stop-exists, stop-lookup_other, remove-lookup_other,
  remove-gone,
}

module _ (fails : Call → Bool) (domain service : String) where
  -- The removal from an index on touches no other container, whatever fails.
  remove_from-lookup :
      (fuel i : ℕ) (m : String) (d : Docker)
      → ((k : ℕ) → i ≤ k → m ≢ replica_container_name domain service k)
      → lookup m (remove_from fails domain service fuel i d).0 ≡ lookup m d
  unfolding remove_from
  remove_from-lookup zero i m d h = refl
  remove_from-lookup (suc fuel) i m d h =
      let name = replica_container_name domain service i in
      let stopped = stop_container fails name d in
      let other = h i (omega arith) in
      ground (
        arith,
        stop-lookup_other fails m name d other,
        remove-lookup_other fails m name stopped other,
        remove_from-lookup fuel (i + 1) m (remove_container fails name stopped).0
            (λ k l. h k (omega arith)),
      )

  -- A name that does not exist stays so.
  remove_from-exists :
      (fuel i : ℕ) (m : String) (d : Docker)
      → exists_in m d ≡ false
      → exists_in m (remove_from fails domain service fuel i d).0 ≡ false
  unfolding remove_from remove_container
  remove_from-exists zero i m d h = h
  remove_from-exists (suc fuel) i m d h =
      let name = replica_container_name domain service i in
      let stopped = stop_container fails name d in
      ground (
        arith,
        h,
        stop-exists fails m name d,
        any-delete_where_none (is_container m) (is_container name) stopped,
        remove_from-exists fuel (i + 1) m (remove_container fails name stopped).0,
      )

  -- When the removal succeeds and the first container could be inspected, that container is gone.
  remove_from-gone :
      (fuel i : ℕ) (d : Docker)
      → fails (container_inspect (replica_container_name domain service i)) ≡ false
      → (remove_from fails domain service fuel i d).1 ≡ ok tt
      → exists_in
          (replica_container_name domain service i)
          (remove_from fails domain service fuel i d).0
        ≡ false
  unfolding remove_from container_exists
  remove_from-gone zero i d w h = ground arith
  remove_from-gone (suc fuel) i d w h =
      let name = replica_container_name domain service i in
      let removed = remove_container fails name (stop_container fails name d) in
      elim (Bool-cases (exists_in name d)) [
        | inr absent ↦ ground (arith, w, absent)
        | inl there ↦ elim (Result-cases removed.1) [
          | inl (x, e) ↦ absurd (failed there x e)
          | inr (u, e) ↦ ground (
            arith,
            w,
            there,
            e,
            remove_from-exists fuel (i + 1) name removed.0
                (remove-gone fails name (stop_container fails name d) e),
          )
        ]
      ]
    where
      failed :
          exists_in (replica_container_name domain service i) d ≡ true
          → (x : Error)
          → (remove_container fails
              (replica_container_name domain service i)
              (stop_container fails (replica_container_name domain service i) d)).1
            ≡ err x
          → ⊥
      failed there x e = ground (arith, w)

  -- While no call fails, the fuel is enough: each round removes a container.
  remove_from-ok :
      (fuel i : ℕ) (d : Docker)
      → ((call : Call) → fails call ≡ false)
      → length d < fuel
      → (remove_from fails domain service fuel i d).1 ≡ ok tt
  unfolding remove_from container_exists remove_container stop_container
  remove_from-ok zero i d w l = absurd (omega arith)
  remove_from-ok (suc fuel) i d w l =
      let name = replica_container_name domain service i in
      let stopped = stop_container fails name d in
      ground (
        arith,
        w (container_inspect name),
        w (container_stop name),
        w (container_remove name),
        update-exists name name false d,
        length-update_where (is_container name) (λ c. record c { running = false }) d,
        length-delete_where-any (is_container name) stopped,
        remove_from-ok fuel (i + 1) (remove_container fails name stopped).0 w,
      )

  pub remove_extras-lookup :
      (from : ℕ) (m : String) (d : Docker)
      → 1 ≤ from
      → ((k : ℕ) → from ≤ k → m ≢ replica_container_name domain service k)
      → lookup m (remove_extras fails domain service from d).0 ≡ lookup m d
  unfolding remove_extras
  remove_extras-lookup from m d p h = ground (arith, remove_from-lookup (length d + 1) from m d h)

  pub remove_extras-gone :
      (from : ℕ) (d : Docker)
      → 1 ≤ from
      → fails (container_inspect (replica_container_name domain service from)) ≡ false
      → (remove_extras fails domain service from d).1 ≡ ok tt
      → exists_in
          (replica_container_name domain service from)
          (remove_extras fails domain service from d).0
        ≡ false
  unfolding remove_extras
  remove_extras-gone from d p w h = ground (arith, remove_from-gone (length d + 1) from d w)

  pub remove_extras-ok :
      (from : ℕ) (d : Docker)
      → ((call : Call) → fails call ≡ false)
      → (remove_extras fails domain service from d).1 ≡ ok tt
  unfolding remove_extras
  remove_extras-ok from d w =
      remove_from-ok (length d + 1) (if ltb from 1 then 1 else from) d w (omega arith)
