-- ===== src/Compose/Blocklist.antt =====
-- What the check of volumes refuses of a user's own files.
use Prim.Native.String.{◌∷◌}
use apod.Base.{
  ◌≡◌, refl, sym, ap, subst, ◌∙◌, inl, inr, Bool, true, false, ◌||◌, String, ◌<>◌, List, [], ◌∷◌,
  ◌==◌, nat_eq, string_eq, any, has_prefix, has_prefix-more, append-cut_prefix, Result-cases, is_ok,
  cut_prefix, arith, Bool-cases,
}
use apod.Compose.{dangerous_mount_sources, is_at_or_below, resolved, check_source}
use apod.Compose.Paths.{not_escaped, check_source-ok}

orr : (a b : Bool) → b ≡ true → a || b ≡ true
orr a b q = ground arith

any-in :
    (p : String → Bool) (xs : List String) (x : String)
    → any (λ y. y == x) xs ≡ true
    → p x ≡ true
    → any p xs ≡ true
unfolding any
any-in p [] x h k = h
any-in p (y ∷ xs) x h k = elim (Bool-cases (y == x)) [
  | inl e ↦ rw (subst (λ z. p z ≡ true) (sym ((string_eq.beq_iff y x).0 e)) k) refl
  | inr e ↦ orr (p y) (any p xs) (any-in p xs x (rw e at h) k)
]

-- A path that begins as another one begins as its beginning.
has_prefix_trans :
    (s p q : String) → has_prefix s p ≡ true → has_prefix p q ≡ true → has_prefix s q ≡ true
has_prefix_trans s p q h k =
    subst (λ x. has_prefix x q ≡ true) (append-cut_prefix s p h)
      (has_prefix-more p q (cut_prefix s p) k)

module _ (comp_dir : String) (home : has_prefix comp_dir "/home/" ≡ true) where
  below_home :
      (path : String) → is_at_or_below path comp_dir ≡ true → has_prefix path "/home/" ≡ true
  unfolding is_at_or_below
  below_home path h = elim (Bool-cases (path == comp_dir)) [
    | inl e ↦
        subst (λ x. has_prefix x "/home/" ≡ true) (sym ((string_eq.beq_iff path comp_dir).0 e)) home
    | inr e ↦
        has_prefix_trans path (comp_dir <> "/") "/home/" (rw e at h)
          (has_prefix-more comp_dir "/home/" "/" home)
  ]

  home_is_dangerous :
      (path : String)
      → has_prefix path "/home/" ≡ true
      → any (is_at_or_below path) dangerous_mount_sources ≡ true
  unfolding is_at_or_below any
  home_is_dangerous path h =
      any-in (is_at_or_below path) dangerous_mount_sources "/home" listed
        (orr (path == "/home") (has_prefix path "/home/") h)
    where
      listed : any (λ y. y == "/home") dangerous_mount_sources ≡ true
      listed = refl

  -- In a project below /home, where the sites of users are, no relative bind mount is accepted, not even one
  -- within the project's directory.
  pub check_source-relative_home :
      (source : String)
      → has_prefix source "/" ≡ false
      → has_prefix source "." ≡ true
      → is_ok (check_source comp_dir source) ≡ false
  check_source-relative_home source relative dot =
      elim (Result-cases (check_source comp_dir source)) [
        | inl (x, e) ↦ ap is_ok e
        | inr (u, e) ↦
            let (stays, safe) =
              check_source-ok comp_dir source e
                (orr (has_prefix source "/") (has_prefix source ".") dot) in
            let inside = not_escaped comp_dir source stays relative in
            absurd (
              never (
                sym (
                  home_is_dangerous (resolved comp_dir source)
                    (below_home (resolved comp_dir source) inside))
                ∙ safe))
      ]
    where
      never : ◌≡◌ {A = Bool} true false → ⊥
      never q = cc
