-- ===== src/Process/Names.antt =====
-- Containers of different replicas have different names.
use apod.Base.{
  ℕ, ◌≡◌, inl, inr, sym, ◌∙◌, String, ◌==◌, nat_eq, string_eq, nat_beq_iff, arith, Bool-cases, ◌<>◌,
  append_ne, length-codes, append_inj, decimal, decimal_inj,
}
use apod.Process.{replica_container_name}

-- The containers of two replicas of one service never have the same name.
pub replica_container_name_inj :
    (domain service : String) (i j : ℕ)
    → replica_container_name domain service i ≡ replica_container_name domain service j
    → i ≡ j
unfolding replica_container_name
replica_container_name_inj domain service i j h =
    let base = "apod-" <> (domain <> ("-" <> service)) in
    elim (Bool-cases (i == 0)) [
      | inl zi ↦ elim (Bool-cases (j == 0)) [
        | inl zj ↦ (nat_beq_iff i 0).0 zi ∙ sym ((nat_beq_iff j 0).0 zj)
        | inr sj ↦ absurd (apart base (decimal j) (rw (zi, sj) at h))
      ]
      | inr si ↦ elim (Bool-cases (j == 0)) [
        | inl zj ↦ absurd (apart base (decimal i) (sym (rw (zj, si) at h)))
        | inr sj ↦ decimal_inj i j (
            append_inj "-" (decimal i) (decimal j)
              (append_inj base ("-" <> decimal i) ("-" <> decimal j) (rw (si, sj) at h)))
      ]
    ]
  where
    apart : (base t : String) → base ≡ base <> ("-" <> t) → ⊥
    apart base t h = append_ne base ("-" <> t) (omega (arith, length-codes "-" t)) h
