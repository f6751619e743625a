-- ===== src/Update.antt =====
-- internal/engine/update.go: which release is newer.
pub mod Numerals
pub mod Parsing
pub mod Order
use apod.Base.{
  ℕ, zero, suc, Bool, false, ◌&&◌, ◌||◌, String, Option, none, some, List, [], ◌∷◌, ◌==◌, nat_eq,
  string_eq, if◌then◌else◌, ltb, codes, split, trim_prefix, trim_space, value_after,
}
use Prim.Native.Char.{code}
use Prim.Native.String.{[], ◌∷◌}
use apod.Base.Names.{is_digit, all_chars}

-- Major, minor and patch.
pub record Core : Type 0 where
  pub major : ℕ
  pub minor : ℕ
  pub patch : ℕ

-- `strconv.Atoi` of a text without a sign: digits, of a number below 2^63.
unfoldable pub atoi : String → Option ℕ
unfolding all_chars value_after
atoi s =
    if s == ""
    then none
    else if all_chars is_digit (codes s) && ltb (value_after 0 s) 9223372036854775808
    then some (value_after 0 s)
    else none

-- The text before the first `-` or `+`.
unfoldable pub without_metadata : String → String
without_metadata [] = ""
without_metadata (c ∷ s) = if code c == 45 || code c == 43 then "" else c ∷ without_metadata s

-- The numbers of at most three parts, with 0 for a part that is missing.
unfoldable pub numbers : ℕ → List String → Option (List ℕ)
unfolding atoi
numbers zero parts = some []
numbers (suc n) [] = some []
numbers (suc n) (p ∷ parts) = elim (atoi p) [
  | none ↦ none
  | some k ↦ elim (numbers n parts) [ none ↦ none | some ks ↦ some (k ∷ ks) ]
]

unfoldable pub core_of : List ℕ → Core
core_of [] = record { major = 0; minor = 0; patch = 0 }
core_of (a ∷ []) = record { major = a; minor = 0; patch = 0 }
core_of (a ∷ b ∷ []) = record { major = a; minor = b; patch = 0 }
core_of (a ∷ b ∷ c ∷ rest) = record { major = a; minor = b; patch = c }

-- `parseVersionCore`.
unfoldable pub parse_version_core : String → Option Core
unfolding trim_prefix trim_space without_metadata split numbers core_of
parse_version_core v =
    elim (numbers 3 (split (without_metadata (trim_prefix (trim_space v) "v")) 46)) [
      | none ↦ none
      | some ks ↦ some (core_of ks)
    ]

-- The loop over the three numbers.
abbrev pub is_after : Core → Core → Bool
is_after l c =
    if l.major == c.major
    then (if l.minor == c.minor then ltb c.patch l.patch else ltb c.minor l.minor)
    else ltb c.major l.major

abbrev pub both_after : Option Core → Option Core → Bool
both_after none c = false
both_after (some l) none = false
both_after (some l) (some c) = is_after l c

-- `versionIsNewer`.
unfoldable pub version_is_newer : String → String → Bool
unfolding parse_version_core
version_is_newer latest current =
    both_after (parse_version_core latest) (parse_version_core current)
