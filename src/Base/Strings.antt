-- ===== src/Base/Strings.antt =====
-- The functions of Go's `strings` package that the program calls, on native strings. A separator or
-- a character class is a test on code points.
use Prim.Native.Nat.{ℕ, zero, suc, ◌/◌, ◌%◌, ◌+◌, ◌<◌}
use Prim.Native.Char.{Char, code}
use Prim.Native.String
use Prim.Native.String.{String, [], ◌∷◌}
use mathlib.Core.Path.{◌≡◌, refl, sym, ap, ◌∙◌}
use mathlib.Core.Logic.{◌≢◌}
use mathlib.Core.Bool.{Bool, true, false, ◌&&◌, ◌||◌}
use mathlib.Core.List.{List, [], ◌∷◌}
use native.Mathlib.Omega.{arith}
use text.Mathlib.TextEquality.{Char-path}
use text.Mathlib.TextLemmas.{nil-append, cons-append}
use apod.Base.Lists.{length}
use apod.Base.Tests.{◌==◌, nat_eq, nat_beq_iff, if◌then◌else◌}

infixr 65 ◌<>◌
-- Go's `+` on strings.
abbrev pub ◌<>◌ : String → String → String
s <> t = String.◌++◌ s t

-- The code points of a string: its bytes, if it is ASCII.
abbrev pub codes : String → List ℕ
codes [] = []
codes (c ∷ s) = code c ∷ codes s

-- `strings.HasPrefix(s, p)`.
unfoldable pub has_prefix : String → String → Bool
has_prefix s [] = true
has_prefix [] (d ∷ p) = false
has_prefix (c ∷ s) (d ∷ p) = code c == code d && has_prefix s p

-- `strings.TrimPrefix(s, p)` under a test that `p` is a prefix.
unfoldable pub cut_prefix : String → String → String
cut_prefix s [] = s
cut_prefix [] (d ∷ p) = []
cut_prefix (c ∷ s) (d ∷ p) = cut_prefix s p

-- `strings.TrimPrefix(s, p)`.
unfoldable pub trim_prefix : String → String → String
unfolding has_prefix cut_prefix
trim_prefix s p = if has_prefix s p then cut_prefix s p else s

-- One character of a split: a separator opens a new part, another joins the first part.
unfoldable pub split_char : Bool → Char → List String → List String
split_char true c parts = "" ∷ parts
split_char false c [] = (c ∷ []) ∷ []
split_char false c (part ∷ parts) = (c ∷ part) ∷ parts

-- `strings.Split(s, sep)` for a separator of one character.
unfoldable pub split : String → ℕ → List String
unfolding split_char
split [] sep = "" ∷ []
split (c ∷ s) sep = split_char (code c == sep) c (split s sep)

-- `strings.Join(parts, sep)`.
unfoldable pub join : List String → String → String
join [] sep = ""
join (part ∷ []) sep = part
join (part ∷ next ∷ parts) sep = part <> (sep <> join (next ∷ parts) sep)

-- Unicode white space within ASCII: tab, line feed, vertical tab, form feed, return and space.
abbrev pub is_space : ℕ → Bool
is_space c = c == 9 || c == 10 || c == 11 || c == 12 || c == 13 || c == 32

-- `strings.TrimSpace(s) == ""`.
unfoldable pub is_blank : String → Bool
is_blank [] = true
is_blank (c ∷ s) = is_space (code c) && is_blank s

pub has_prefix-append : (p s : String) → has_prefix (p <> s) p ≡ true
unfolding has_prefix
has_prefix-append [] s = refl
has_prefix-append (c ∷ p) s =
    ground (arith, cons-append c p s, nat_beq_iff (code c) (code c), has_prefix-append p s)

pub cut_prefix-append : (p s : String) → cut_prefix (p <> s) p ≡ s
unfolding cut_prefix
cut_prefix-append [] s = ground (arith, nil-append s)
cut_prefix-append (c ∷ p) s = ground (arith, cons-append c p s, cut_prefix-append p s)

pub trim_prefix-append : (p s : String) → trim_prefix (p <> s) p ≡ s
unfolding trim_prefix
trim_prefix-append p s = ground (arith, has_prefix-append p s, cut_prefix-append p s)

-- The character of a string at an index, as a string; nothing out of range.
abbrev pub nth_char : String → ℕ → String
nth_char [] i = ""
nth_char (c ∷ s) zero = c ∷ []
nth_char (c ∷ s) (suc i) = nth_char s i

-- `hex.EncodeToString`.
unfoldable pub hex_encode : List ℕ → String
hex_encode [] = ""
hex_encode (b ∷ bs) =
    nth_char "0123456789abcdef" (b / 16) <> (nth_char "0123456789abcdef" (b % 16) <> hex_encode bs)

-- `strings.TrimLeft(s, c)` and `strings.TrimRight(s, c)` for one character.
unfoldable pub trim_left : String → ℕ → String
trim_left [] c = ""
trim_left (x ∷ s) c = if code x == c then trim_left s c else x ∷ s

-- One character before a text that is trimmed already.
unfoldable pub trim_char : Bool → Char → String → String
trim_char true x [] = ""
trim_char true x (y ∷ s) = x ∷ y ∷ s
trim_char false x s = x ∷ s

unfoldable pub trim_right : String → ℕ → String
unfolding trim_char
trim_right [] c = ""
trim_right (x ∷ s) c = trim_char (code x == c) x (trim_right s c)

-- `strings.Trim(s, c)`.
unfoldable pub trim : String → ℕ → String
unfolding trim_left trim_right
trim s c = trim_right (trim_left s c) c

-- A prefix and the rest.
pub append-cut_prefix : (s p : String) → has_prefix s p ≡ true → p <> cut_prefix s p ≡ s
unfolding has_prefix cut_prefix
append-cut_prefix s [] h = nil-append s
append-cut_prefix [] (d ∷ p) h = ground arith
append-cut_prefix (c ∷ s) (d ∷ p) h = ground (
  arith,
  cons-append d p (cut_prefix s p),
  nat_beq_iff (code c) (code d),
  Char-path c d,
  append-cut_prefix s p,
)

unfoldable pub trim_space_left : String → String
trim_space_left [] = ""
trim_space_left (c ∷ s) = if is_space (code c) then trim_space_left s else c ∷ s

unfoldable pub trim_space_right : String → String
unfolding trim_char
trim_space_right [] = ""
trim_space_right (c ∷ s) = trim_char (is_space (code c)) c (trim_space_right s)

-- `strings.TrimSpace`, for ASCII white space.
unfoldable pub trim_space : String → String
unfolding trim_space_left trim_space_right
trim_space s = trim_space_right (trim_space_left s)

pub length-codes : (s t : String) → length (codes (s <> t)) ≡ length (codes s) + length (codes t)
length-codes [] t = ground (arith, nil-append t)
length-codes (c ∷ s) t = ground (arith, cons-append c s t, length-codes s t)

-- A text is not itself with more behind it.
pub append_ne : (s t : String) → 0 < length (codes t) → s ≢ s <> t
append_ne s t l h = omega (arith, length-codes s t, ap (λ x. length (codes x)) h)

pub append_inj : (s t u : String) → s <> t ≡ s <> u → t ≡ u
append_inj s t u h =
    sym (cut_prefix-append s t) ∙ ap (λ x. cut_prefix x s) h ∙ cut_prefix-append s u

pub has_prefix-more : (s p t : String) → has_prefix s p ≡ true → has_prefix (s <> t) p ≡ true
unfolding has_prefix
has_prefix-more s [] t h = refl
has_prefix-more [] (d ∷ p) t h = ground arith
has_prefix-more (c ∷ s) (d ∷ p) t h = ground (arith, cons-append c s t, has_prefix-more s p t)
