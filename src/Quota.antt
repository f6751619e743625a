-- ===== src/Quota.antt =====
-- internal/engine/quota.go: the choice of the file system on which a disk quota is set. The mount table is
-- none where it cannot be read. The path is the one that the caller passes, which filepath.Join has cleaned.
pub mod Mounts
use Prim.Native.Char.{code}
use Prim.Native.String
use Prim.Native.String.{[], ◌∷◌}
use apod.Base.{
  Bool, ◌&&◌, ◌||◌, String, Option, none, some, List, [], ◌∷◌, ◌==◌, nat_eq, string_eq,
  if◌then◌else◌, length, ltb, codes, has_prefix, split, is_space, nth_char,
}

-- The words found so far to the right: the one that is still open, and the others.
abbrev pub close_word : String × List String → List String
close_word (w, ws) = if w == "" then ws else w ∷ ws

unfoldable pub words : String → String × List String
words [] = ("", [])
words (c ∷ s) =
    let rest = words s in if is_space (code c) then ("", close_word rest) else (c ∷ rest.0, rest.1)

-- `strings.Fields`, for ASCII white space.
unfoldable pub fields : String → List String
unfolding words
fields s = close_word (words s)

-- `fields[1]`, if there is one.
unfoldable pub second : List String → Option String
second [] = none
second (x ∷ []) = none
second (x ∷ y ∷ xs) = some y

-- The mount point is the path or a directory above it.
unfoldable pub covers : String → String → Bool
covers path mp =
    mp == path
    || mp == "/"
    || (has_prefix path mp && ltb 1 (length (codes mp)) && nth_char path (length (codes mp)) == "/")

unfoldable pub longer_cover : String → String → String → Bool
longer_cover path best mp = covers path mp && ltb (length (codes best)) (length (codes mp))

-- The body of the loop on a line.
unfoldable pub best_of : String → String → Option String → String
unfolding longer_cover
best_of path best none = best
best_of path best (some mp) = if longer_cover path best mp then mp else best

-- The loop over the lines.
unfoldable pub best_mount : String → String → List String → String
unfolding best_of
best_mount path best [] = best
best_mount path best (line ∷ lines) =
    best_mount path (best_of path best (second (fields line))) lines

-- `mountPointFor`.
unfoldable pub mount_point_for : Option String → String → String
unfolding best_mount
mount_point_for none path = "/"
mount_point_for (some table) path = best_mount path "/" (split table 10)
