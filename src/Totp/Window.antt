-- ===== src/Totp/Window.antt =====
-- Which codes are accepted, and when.
use apod.Base.{
  ℕ, ◌+◌, ◌-◌, ◌%◌, ◌≤◌, ◌<◌, ◌≡◌, ◌⊎◌, inl, inr, sym, ap, String, none, some, List, [], ◌∷◌,
  length, arith, Bool-cases, Option-cases, All,
}
use mathlib.Core.List.{Memᴰ}
use native.Mathlib.Decide.{dec_lt}
use apod.Totp.{
  Primitives, step, u64_mod, bytes_eq, bytes_eq_iff, six_digits, truncate, put_uint64, hotp,
  code_at, first_match, window, verify,
}

module _ (p : Primitives) where
  -- Whatever the key and the step, a code is six ASCII digits.
  hotp_digits :
      (key : List ℕ) (n : ℕ)
      → (length (hotp p key n) ≡ 6) × All (λ c. (48 ≤ c) × (c ≤ 57)) (hotp p key n)
  unfolding hotp six_digits
  hotp_digits key n = let v = truncate (p.hmac_sha1 key (put_uint64 n)) in omega arith

  first_match_sound :
      (key code : List ℕ) (steps : List ℕ) (s : ℕ)
      → first_match p key code steps ≡ some s
      → code ≡ hotp p key s
  unfolding first_match
  first_match_sound key code [] s h = cc
  first_match_sound key code (x ∷ steps) s h =
      ground (arith, bytes_eq_iff (hotp p key x) code, first_match_sound key code steps s)

  first_match_within :
      (key code : List ℕ) (c s : ℕ)
      → first_match p key code (window c) ≡ some s
      → (s ≡ c) ⊎ ((s ≡ (c + u64_mod - 1) % u64_mod) ⊎ (s ≡ (c + 1) % u64_mod))
  unfolding first_match
  first_match_within key code c s h = ground arith

  -- A code that `Verify` accepts at a time is the code of the step that it returns, which is the current
  -- step, the one before or the one after (as 64-bit counters).
  pub verify_sound :
      (secret : String) (code : List ℕ) (t s : ℕ)
      → verify p secret code t ≡ some s
      → (key : List ℕ) × (p.b32_decode secret ≡ some key)
        × (code ≡ hotp p key s)
        × ((s ≡ step t) ⊎ ((s ≡ (step t + u64_mod - 1) % u64_mod) ⊎ (s ≡ (step t + 1) % u64_mod)))
  unfolding verify
  verify_sound secret code t s h = elim (Option-cases (p.b32_decode secret)) [
    | inl e ↦ absurd (verify_sound_none e)
    | inr (key, e) ↦
        let m : first_match p key code (window (step t)) ≡ some s = ground arith in
        (
          key,
          e,
          first_match_sound key code (window (step t)) s m,
          first_match_within key code (step t) s m,
        )
  ]
    where
      verify_sound_none : p.b32_decode secret ≡ none → ⊥
      verify_sound_none e = ground arith

  first_match_complete :
      (key : List ℕ) (n : ℕ) (steps : List ℕ)
      → Memᴰ n steps
      → (s : ℕ) × (first_match p key (hotp p key n) steps ≡ some s)
  unfolding first_match
  first_match_complete key n [] m = elim m [ ]
  first_match_complete key n (x ∷ steps) m =
      elim (Bool-cases (bytes_eq (hotp p key x) (hotp p key n))) [
        | inl same ↦ (x, rw same)
        | inr other ↦ elim m [
          | Memᴰ.head e ↦
              absurd (
                cc
                  ((bytes_eq_iff (hotp p key x) (hotp p key n)).1 (ap (hotp p key) (sym e)), other))
          | Memᴰ.tail m' ↦
              let (s, e) = first_match_complete key n steps m' in (s, rw (other, first_match) e)
        ]
      ]

  in_window : (n c : ℕ) → c + 1 < u64_mod → n ≤ c + 1 → c ≤ n + 1 → Memᴰ n (window c)
  in_window n c w h1 h2 = elim (dec_lt c n) [
    | yes above ↦ Memᴰ.tail (Memᴰ.tail (Memᴰ.head (omega arith)))
    | no below ↦ elim (dec_lt n c) [
      | yes under ↦ Memᴰ.tail (Memᴰ.head (omega arith))
      | no level ↦ Memᴰ.head (omega arith)
    ]
  ]

  -- The code of a time is accepted at every time whose step differs from its own by at most one, while
  -- the counter does not wrap around: a clock may be off by half a minute, and a code that is accepted
  -- so is one for the same digits.
  pub verify-code_at :
      (secret : String) (code : List ℕ) (made t : ℕ)
      → code_at p secret made ≡ some code
      → step t + 1 < u64_mod
      → step made ≤ step t + 1
      → step t ≤ step made + 1
      → (s : ℕ) × (verify p secret code t ≡ some s)
  unfolding verify code_at
  verify-code_at secret code made t e w h1 h2 = elim (Option-cases (p.b32_decode secret)) [
    | inl n ↦ absurd (no_key n)
    | inr (key, k) ↦
        let c : hotp p key (step made) ≡ code = ground arith in
        let six : length code ≡ 6 = rw (← c) (hotp_digits key (step made)).0 in
        let (s, m) =
          first_match_complete key (step made) (window (step t))
            (in_window (step made) (step t) w h1 h2) in
        (s, rw (k, verify) (rw six (rw (← c) m)))
  ]
    where
      no_key : p.b32_decode secret ≡ none → ⊥
      no_key n = ground arith
