-- ===== src/Compose/Paths.antt =====
-- What a bind mount that is accepted names.
use Prim.Native.String.{◌∷◌}
use apod.Base.{
  ◌≡◌, refl, sym, subst, inl, inr, ◌⊎◌, Bool, true, false, not, ◌&&◌, ◌||◌, String, ◌<>◌, List, [],
  ◌∷◌, Result, ok, err, Error, plain, ◌==◌, nat_eq, string_eq, if◌then◌else◌, any, All, has_prefix,
  has_prefix-append, has_prefix-more, split, trim_space, arith, Bool-cases,
}
use apod.Compose.{
  pop, clean_step, clean_parts, path_of, or_else, clean, dangerous_mount_sources, is_at_or_below,
  VolumeNode, volume_source, resolved, escapes, check_source, check_compose_volume,
}

-- An element of a path that names an entry of a directory.
abbrev pub IsNormal : String → Type 0
IsNormal p = (p == "" || (p == "." || p == "..")) ≡ false

pop-IsNormal : (stack : List String) → All IsNormal stack → All IsNormal (pop true stack)
unfolding pop
pop-IsNormal [] n = n
pop-IsNormal (t ∷ ts) n = elim (Bool-cases (t == "..")) [
  | inl up ↦ absurd (never up n.0)
  | inr u ↦ rw u n.1
]
  where
    never : (t == "..") ≡ true → IsNormal t → ⊥
    never up h = ground arith

clean_step-IsNormal :
    (stack : List String) (p : String) → All IsNormal stack → All IsNormal (clean_step true stack p)
unfolding clean_step
clean_step-IsNormal stack p n = elim (Bool-cases (p == "")) [
  | inl e ↦ rw e n
  | inr e ↦ elim (Bool-cases (p == ".")) [
    | inl d ↦ rw (e, d) n
    | inr d ↦ elim (Bool-cases (p == "..")) [
      | inl u ↦ rw (e, d, u) (pop-IsNormal stack n)
      | inr u ↦ rw (e, d, u) (normal e d u, n)
    ]
  ]
]
  where
    normal : (p == "") ≡ false → (p == ".") ≡ false → (p == "..") ≡ false → IsNormal p
    normal e d u = ground arith

clean_parts-IsNormal :
    (ps stack : List String) → All IsNormal stack → All IsNormal (clean_parts true stack ps)
unfolding clean_parts
clean_parts-IsNormal [] stack n = n
clean_parts-IsNormal (p ∷ ps) stack n =
    clean_parts-IsNormal ps (clean_step true stack p) (clean_step-IsNormal stack p n)

-- A path below the root, with no element that leads elsewhere.
pub record Clean (path : String) : Type 0 where
  pub stack : List String
  pub built : path ≡ or_else "/" (path_of stack "")
  pub normal : All IsNormal stack

pub clean-Clean : (path : String) → has_prefix path "/" ≡ true → Clean (clean path)
unfolding clean
clean-Clean path rooted = record {
  stack = clean_parts true [] (split path 47);
  built = rw rooted refl;
  normal = clean_parts-IsNormal (split path 47) [] tt;
}

path_of-rooted :
    (stack : List String) (tail : String)
    → has_prefix tail "/" ≡ true
    → has_prefix (path_of stack tail) "/" ≡ true
unfolding path_of
path_of-rooted [] tail h = h
path_of-rooted (p ∷ stack) tail h =
    path_of-rooted stack ("/" <> (p <> tail)) (has_prefix-append "/" (p <> tail))

or_else-rooted : (s : String) → has_prefix s "/" ≡ true → has_prefix (or_else "/" s) "/" ≡ true
unfolding or_else has_prefix
or_else-rooted s h = elim (Bool-cases (s == "")) [ inl e ↦ rw e refl | inr e ↦ rw e h ]

pub clean-rooted : (path : String) → has_prefix path "/" ≡ true → has_prefix (clean path) "/" ≡ true
unfolding clean
clean-rooted path rooted = rw rooted (whole (clean_parts true [] (split path 47)))
  where
    whole : (stack : List String) → has_prefix (or_else "/" (path_of stack "")) "/" ≡ true
    whole [] = refl
    whole (p ∷ stack) =
        or_else-rooted (path_of (p ∷ stack) "")
          (path_of-rooted stack ("/" <> (p <> "")) (has_prefix-append "/" (p <> "")))

-- A source that begins in one of these ways is not empty.
filled :
    (source : String)
    → (has_prefix source "/" || has_prefix source ".") ≡ true
    → (source == "") ≡ false
unfolding has_prefix
filled source h = elim (Bool-cases (source == "")) [
  | inr n ↦ n
  | inl e ↦ absurd (
      never (
        subst (λ y. (has_prefix y "/" || has_prefix y ".") ≡ true)
          ((string_eq.beq_iff source "").0 e) h))
]
  where
    never : (has_prefix "" "/" || has_prefix "" ".") ≡ true → ⊥
    never q = cc

module _ (comp_dir : String) where
  pub not_escaped :
      (source : String)
      → escapes comp_dir source ≡ false
      → has_prefix source "/" ≡ false
      → is_at_or_below (resolved comp_dir source) comp_dir ≡ true
  unfolding escapes
  not_escaped source h relative =
      inside (has_prefix source "/") (is_at_or_below (resolved comp_dir source) comp_dir) h relative
    where
      inside : (a b : Bool) → (not a && not b) ≡ false → a ≡ false → b ≡ true
      inside a b h r = ground arith

  -- The branches of the check.
  decided :
      (x y : Error) (e a b esc bad : Bool)
      → ◌≡◌ {A = Result (Unit {0})}
          (if e
            then ok tt
            else if not a && not b
            then ok tt
            else if esc
            then err x
            else if bad
            then err y
            else ok tt)
          (ok tt)
      → e ≡ false
      → a || b ≡ true
      → (esc ≡ false) × (bad ≡ false)
  decided x y e a b esc bad h n bind = ground arith

  pub check_source-ok :
      (source : String)
      → check_source comp_dir source ≡ ok tt
      → (has_prefix source "/" || has_prefix source ".") ≡ true
      → (escapes comp_dir source ≡ false)
        × (any (is_at_or_below (resolved comp_dir source)) dangerous_mount_sources ≡ false)
  unfolding check_source
  check_source-ok source h bind =
      decided (plain "service %q: relative bind mount %q escapes the project directory")
        (plain "service %q: bind mount of host path %q is not allowed") (source == "")
        (has_prefix source "/") (has_prefix source ".") (escapes comp_dir source)
        (any (is_at_or_below (resolved comp_dir source)) dangerous_mount_sources) h
        (filled source bind) bind

module _ (comp_dir : String) (absolute : has_prefix comp_dir "/" ≡ true) where
  resolved-Clean : (source : String) → Clean (resolved comp_dir source)
  unfolding resolved
  resolved-Clean source = elim (Bool-cases (has_prefix source "/")) [
    | inl rooted ↦ subst Clean (sym (as_given rooted)) (clean-Clean source rooted)
    | inr relative ↦ subst Clean (sym (within relative)) (
        clean-Clean (clean (comp_dir <> ("/" <> source))) (
          clean-rooted (comp_dir <> ("/" <> source))
            (has_prefix-more comp_dir "/" ("/" <> source) absolute)))
  ]
    where
      as_given : has_prefix source "/" ≡ true → resolved comp_dir source ≡ clean source
      as_given rooted = rw (resolved, rooted) refl

      within :
          has_prefix source "/" ≡ false
          → resolved comp_dir source ≡ clean (clean (comp_dir <> ("/" <> source)))
      within relative = rw (resolved, relative) refl

  -- A bind mount that may be made.
  pub record Allowed (source : String) : Type 0 where
    pub clean : Clean (resolved comp_dir source)
    pub safe : any (is_at_or_below (resolved comp_dir source)) dangerous_mount_sources ≡ false
    pub inside :
        has_prefix source "/" ≡ false → is_at_or_below (resolved comp_dir source) comp_dir ≡ true

  -- A source that is not looked at.
  abbrev pub IsUnread : String → Type 0
  IsUnread source = (has_prefix source "/" || has_prefix source ".") ≡ false

  source-accepted :
      (source : String) → IsUnread source ⊎ Allowed source → check_source comp_dir source ≡ ok tt
  unfolding check_source escapes
  source-accepted source (inl unread) = ground arith
  source-accepted source (inr a) = ground (arith, a.safe, a.inside)

  -- A volume is accepted exactly if its source, the trimmed text before the first colon, the trimmed `source`
  -- of a mapping or nothing for another node, begins with neither a slash nor a dot, and is then not looked at any further, or the path that
  -- it names, with every `.` and `..` resolved, is none of the dangerous paths and below none of them, and a
  -- relative one is within the project's directory, if that is an absolute path.
  pub check_compose_volume-decides :
      (node : VolumeNode)
      → let source = trim_space (volume_source node) in
        (check_compose_volume comp_dir node ≡ ok tt → IsUnread source ⊎ Allowed source)
        × (IsUnread source ⊎ Allowed source → check_compose_volume comp_dir node ≡ ok tt)
  unfolding check_compose_volume
  check_compose_volume-decides node = (
    accepted (trim_space (volume_source node)),
    source-accepted (trim_space (volume_source node)),
  )
    where
      accepted :
          (source : String)
          → check_source comp_dir source ≡ ok tt
          → IsUnread source ⊎ Allowed source
      accepted source h = elim (Bool-cases (has_prefix source "/" || has_prefix source ".")) [
        | inr named ↦ inl named
        | inl bind ↦
            let (inside, safe) = check_source-ok comp_dir source h bind in
            inr (record {
              clean = resolved-Clean source;
              safe = safe;
              inside = not_escaped comp_dir source inside;
            })
      ]
