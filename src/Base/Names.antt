-- ===== src/Base/Names.antt =====
-- Names by character classes, and the replacement of one character, as the program's patterns use them.
use Prim.Native.Nat.{ℕ, ◌-◌}
use Prim.Native.Char.{Char, code}
use Prim.Native.String.{String, [], ◌∷◌}
use mathlib.Core.Bool.{Bool, true, ◌&&◌}
use mathlib.Core.List.{List, [], ◌∷◌}
use mathlib.Core.Option.{Option, none, some}
use apod.Base.Strings.{nth_char, trim_char, ◌<>◌}
use apod.Base.Tests.{leb, ◌==◌, nat_eq, if◌then◌else◌}

abbrev pub is_lower : ℕ → Bool
is_lower c = leb 97 c && leb c 122

abbrev pub is_upper : ℕ → Bool
is_upper c = leb 65 c && leb c 90

abbrev pub is_digit : ℕ → Bool
is_digit c = leb 48 c && leb c 57

-- Every character is of a class.
unfoldable pub all_chars : (ℕ → Bool) → List ℕ → Bool
all_chars p [] = true
all_chars p (c ∷ cs) = p c && all_chars p cs

-- `strings.ReplaceAll(s, from, to)` for two characters.
unfoldable pub replace_char : ℕ → Char → String → String
replace_char from to [] = []
replace_char from to (c ∷ s) = (if code c == from then to else c) ∷ replace_char from to s

-- `strings.Cut(s, sep)` for a separator of one character; `none` if it does not occur.
unfoldable pub cut_after : Char → Option (String × String) → Option (String × String)
cut_after c none = none
cut_after c (some (before, rest)) = some (c ∷ before, rest)

unfoldable pub cut : ℕ → String → Option (String × String)
unfolding cut_after
cut sep [] = none
cut sep (c ∷ s) = if code c == sep then some ([], s) else cut_after c (cut sep s)

-- `strings.ToLower` and `strings.ToUpper` within ASCII.
unfoldable pub to_lower : String → String
to_lower [] = ""
to_lower (c ∷ s) =
    (if is_upper (code c) then nth_char "abcdefghijklmnopqrstuvwxyz" (code c - 65) else c ∷ [])
    <> to_lower s

unfoldable pub to_upper : String → String
to_upper [] = ""
to_upper (c ∷ s) =
    (if is_lower (code c) then nth_char "ABCDEFGHIJKLMNOPQRSTUVWXYZ" (code c - 97) else c ∷ [])
    <> to_upper s

-- `strings.Trim(s, cutset)`, with the cutset as a test.
unfoldable pub trim_left_where : (ℕ → Bool) → String → String
trim_left_where p [] = ""
trim_left_where p (c ∷ s) = if p (code c) then trim_left_where p s else c ∷ s

unfoldable pub trim_right_where : (ℕ → Bool) → String → String
unfolding trim_char
trim_right_where p [] = ""
trim_right_where p (c ∷ s) = trim_char (p (code c)) c (trim_right_where p s)

unfoldable pub trim_where : (ℕ → Bool) → String → String
unfolding trim_left_where trim_right_where
trim_where p s = trim_right_where p (trim_left_where p s)

-- `strings.ReplaceAll(s, c, "")` for one character.
unfoldable pub remove_char : ℕ → String → String
remove_char c [] = ""
remove_char c (x ∷ s) = if code x == c then remove_char c s else x ∷ remove_char c s

-- `strings.SplitN(s, sep, 2)[0]` for a separator of one character.
unfoldable pub before : ℕ → String → String
before sep [] = ""
before sep (c ∷ s) = if code c == sep then "" else c ∷ before sep s
