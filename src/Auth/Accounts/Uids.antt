-- ===== src/Auth/Accounts/Uids.antt =====
-- Which UID a new account gets.
use apod.Base.{
  ℕ, zero, suc, ◌+◌, ◌-◌, ◌≤◌, ◌<◌, ◌≡◌, inl, inr, refl, subst, true, false, Option, none, some,
  List, ok, err, Error, ◌==◌, nat_eq, string_eq, nat_beq_iff, arith, Bool-cases,
}
use apod.Db.{Env}
use apod.Auth.{Crypto, Engine}
use apod.Auth.Accounts.{
  Host, uid_range_start, uid_range_end, is_used, first_free, used_uids, or_no_uid,
  find_available_uid,
}

first_free_sound :
    (n uid x : ℕ) (used : List ℕ)
    → first_free n uid used ≡ some x
    → (uid ≤ x)
      × (x < uid + n)
      × (is_used x used ≡ false)
      × ((y : ℕ) → uid ≤ y → y < x → is_used y used ≡ true)
unfolding first_free
first_free_sound zero uid x used h = absurd (no h)
  where
    no : none ≡ some x → ⊥
    no q = cc
first_free_sound (suc n) uid x used h = elim (Bool-cases (is_used uid used)) [
  | inr free ↦ (ground arith, ground arith, ground arith, λ y l m. absurd (none_below free y l m))
  | inl taken ↦
      let (l, m, f, below) = first_free_sound n (uid + 1) x used (rw (taken, first_free) at h) in
      (
        omega arith,
        omega arith,
        f,
        λ y a b. elim (Bool-cases (uid == y)) [
          | inl same ↦ subst (λ k. is_used k used ≡ true) ((nat_beq_iff uid y).0 same) taken
          | inr other ↦ below y (ground (arith, nat_beq_iff uid y)) b
        ],
      )
]
  where
    none_below : is_used uid used ≡ false → (y : ℕ) → uid ≤ y → y < x → ⊥
    none_below free y l m = ground arith

first_free-none :
    (n uid y : ℕ) (used : List ℕ)
    → first_free n uid used ≡ none
    → uid ≤ y
    → y < uid + n
    → is_used y used ≡ true
unfolding first_free
first_free-none zero uid y used h a b = absurd (omega arith)
first_free-none (suc n) uid y used h a b = elim (Bool-cases (is_used uid used)) [
  | inr free ↦ absurd (no free)
  | inl taken ↦ elim (Bool-cases (uid == y)) [
    | inl same ↦ subst (λ k. is_used k used ≡ true) ((nat_beq_iff uid y).0 same) taken
    | inr other ↦
        first_free-none n (uid + 1) y used (rw (taken, first_free) at h)
          (ground (arith, nat_beq_iff uid y)) (omega arith)
  ]
]
  where
    no : is_used uid used ≡ false → ⊥
    no free = ground arith

or_no_uid-ok : (o : Option ℕ) (uid : ℕ) → or_no_uid o ≡ ok uid → o ≡ some uid
or_no_uid-ok none uid h = ground arith
or_no_uid-ok (some u) uid h = ground arith

or_no_uid-err : (o : Option ℕ) (x : Error) → or_no_uid o ≡ err x → o ≡ none
or_no_uid-err none x h = refl
or_no_uid-err (some u) x h = ground arith

module _ (c : Crypto) (env : Env) (host : Host) where
  -- The UID for a new account is the lowest one from 5000 to 64999 that is not in use: by a user, where
  -- the users can be listed, or in the host's list. There is an error only when all of these are in use.
  pub find_available_uid_lowest :
      (e : Engine)
      → ((uid : ℕ)
          → (find_available_uid c env host e).1 ≡ ok uid
          → (uid_range_start ≤ uid)
            × (uid < uid_range_end)
            × (is_used uid (used_uids c env host e.db) ≡ false)
            × ((y : ℕ)
                → uid_range_start ≤ y
                → y < uid
                → is_used y (used_uids c env host e.db) ≡ true))
        × ((x : Error)
            → (find_available_uid c env host e).1 ≡ err x
            → (y : ℕ) → uid_range_start ≤ y
            → y < uid_range_end
            → is_used y (used_uids c env host e.db) ≡ true)
  unfolding find_available_uid
  find_available_uid_lowest e =
      let used = used_uids c env host e.db in
      let searched = first_free (uid_range_end - uid_range_start) uid_range_start used in
      (
        λ uid h.
            first_free_sound (uid_range_end - uid_range_start) uid_range_start uid used
              (or_no_uid-ok searched uid h),
        λ x h y a b.
            first_free-none (uid_range_end - uid_range_start) uid_range_start y used
              (or_no_uid-err searched x h) a (omega arith),
      )
