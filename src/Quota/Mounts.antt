-- ===== src/Quota/Mounts.antt =====
-- The mount point that a quota is set on.
use apod.Base.{
  ◌≤◌, ◌≡◌, ◌⊎◌, inl, inr, refl, Bool, true, false, String, Option, none, some, List, [], ◌∷◌, ◌==◌,
  nat_eq, string_eq, any, length, ltb→lt, lt→ltb, ◌∙◌, sym, subst, Bool-cases, codes, arith, split,
}
use apod.Quota.{fields, second, covers, longer_cover, best_of, best_mount, mount_point_for}

abbrev pub is_second : String → Option String → Bool
is_second mp none = false
is_second mp (some x) = x == mp

-- The line is of this mount point.
abbrev pub is_at : String → String → Bool
is_at mp line = is_second mp (second (fields line))

best_of-grows :
    (path best : String) (o : Option String)
    → length (codes best) ≤ length (codes (best_of path best o))
unfolding best_of longer_cover
best_of-grows path best none = ground arith
best_of-grows path best (some mp) = ground (arith, ltb→lt (length (codes best)) (length (codes mp)))

best_of-longest :
    (path best mp : String) (o : Option String)
    → is_second mp o ≡ true
    → covers path mp ≡ true
    → length (codes mp) ≤ length (codes (best_of path best o))
unfolding best_of longer_cover
best_of-longest path best mp none h k = ground arith
best_of-longest path best mp (some x) h k =
    subst (λ y. length (codes y) ≤ length (codes (best_of path best (some x))))
      ((string_eq.beq_iff x mp).0 h)
      (here (subst (λ y. covers path y ≡ true) (sym ((string_eq.beq_iff x mp).0 h)) k))
  where
    here : covers path x ≡ true → length (codes x) ≤ length (codes (best_of path best (some x)))
    here k = ground (arith, lt→ltb (length (codes best)) (length (codes x)))

best_of-covers :
    (path best : String) (o : Option String)
    → covers path best ≡ true
    → covers path (best_of path best o) ≡ true
unfolding best_of longer_cover
best_of-covers path best none k = k
best_of-covers path best (some x) k = ground arith

best_of-listed :
    (path best : String) (o : Option String)
    → (best_of path best o ≡ best) ⊎ (is_second (best_of path best o) o ≡ true)
unfolding best_of
best_of-listed path best none = inl refl
best_of-listed path best (some x) = elim (Bool-cases (longer_cover path best x)) [
  | inl l ↦ inr (rw l ((string_eq.beq_iff x x).1 refl))
  | inr l ↦ inl (rw l refl)
]

best_mount-grows :
    (path best : String) (lines : List String)
    → length (codes best) ≤ length (codes (best_mount path best lines))
unfolding best_mount
best_mount-grows path best [] = ground arith
best_mount-grows path best (line ∷ lines) = omega (
  arith,
  best_of-grows path best (second (fields line)),
  best_mount-grows path (best_of path best (second (fields line))) lines,
)

best_mount-longest :
    (path best mp : String) (lines : List String)
    → any (is_at mp) lines ≡ true
    → covers path mp ≡ true
    → length (codes mp) ≤ length (codes (best_mount path best lines))
unfolding best_mount any
best_mount-longest path best mp [] h k = ground arith
best_mount-longest path best mp (line ∷ lines) h k = elim (Bool-cases (is_at mp line)) [
  | inl here ↦
      let next = best_of path best (second (fields line)) in
      omega (
        arith,
        best_of-longest path best mp (second (fields line)) here k,
        best_mount-grows path next lines,
      )
  | inr off ↦
      best_mount-longest path (best_of path best (second (fields line))) mp lines (skipped off) k
]
  where
    skipped : is_at mp line ≡ false → any (is_at mp) lines ≡ true
    skipped off = ground arith

best_mount-covers :
    (path best : String) (lines : List String)
    → covers path best ≡ true
    → covers path (best_mount path best lines) ≡ true
unfolding best_mount
best_mount-covers path best [] k = k
best_mount-covers path best (line ∷ lines) k =
    best_mount-covers path (best_of path best (second (fields line))) lines
      (best_of-covers path best (second (fields line)) k)

best_mount-listed :
    (path best : String) (lines : List String)
    → (best_mount path best lines ≡ best) ⊎ (any (is_at (best_mount path best lines)) lines ≡ true)
unfolding best_mount any
best_mount-listed path best [] = inl refl
best_mount-listed path best (line ∷ lines) =
    let next = best_of path best (second (fields line)) in
    let m = best_mount path next lines in
    elim (best_mount-listed path next lines) [
      | inr later ↦ inr (ground (arith, later))
      | inl same ↦ elim (best_of-listed path best (second (fields line))) [
        | inl kept ↦ inl (same ∙ kept)
        | inr here ↦ inr (ground (arith, subst (λ y. is_at y line ≡ true) (sym same) here))
      ]
    ]

root-covers : (path : String) → covers path "/" ≡ true
unfolding covers
root-covers path = ground arith

-- The mount point chosen from a table that can be read is the path or a directory above it, is "/" or stands
-- in the table, and no mount point of the table with the path below it is longer.
pub mount_point_for_longest :
    (table path : String)
    → let m = mount_point_for (some table) path in
      let lines = split table 10 in
      (covers path m ≡ true)
      × ((m ≡ "/") ⊎ (any (is_at m) lines ≡ true))
      × ((mp : String)
          → any (is_at mp) lines ≡ true
          → covers path mp ≡ true
          → length (codes mp) ≤ length (codes m))
unfolding mount_point_for
mount_point_for_longest table path = (
  best_mount-covers path "/" (split table 10) (root-covers path),
  best_mount-listed path "/" (split table 10),
  λ mp. best_mount-longest path "/" mp (split table 10),
)
