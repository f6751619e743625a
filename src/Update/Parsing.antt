-- ===== src/Update/Parsing.antt =====
-- A version as it is written is read back.
use Prim.Native.Nat.{◌<◌}
use Prim.Native.Char.{code}
use Prim.Native.String.{[], ◌∷◌}
use text.Mathlib.TextLemmas.{nil-append, cons-append}
use apod.Base.{
  ℕ, suc, ◌≡◌, refl, sym, ap, ◌∙◌, Bool, true, false, ◌||◌, String, ◌<>◌, some, List, [], ◌∷◌, ◌==◌,
  nat_eq, string_eq, if◌then◌else◌, codes, split, trim_prefix, trim_prefix-append, trim_space,
  trim_space_left, trim_space_right, has_prefix, decimal, arith,
}
use apod.Base.Names.{is_digit, all_chars}
use apod.Update.{atoi, without_metadata, numbers, core_of, parse_version_core}
use apod.Update.Numerals.{
  IsNumeric, head_digit, head_digit-append, decimal-IsNumeric, atoi-decimal, split-last, split-next,
}

-- A text of digits and dots.
abbrev is_core : ℕ → Bool
is_core c = is_digit c || c == 46

abbrev IsCore : String → Type 0
IsCore s = all_chars is_core (codes s) ≡ true

IsCore-append : (s t : String) → IsCore s → IsCore t → IsCore (s <> t)
unfolding all_chars
IsCore-append [] t h k = ground (arith, nil-append t)
IsCore-append (c ∷ s) t h k = ground (arith, cons-append c s t, IsCore-append s t)

IsNumeric-IsCore : (s : String) → IsNumeric s → IsCore s
unfolding all_chars
IsNumeric-IsCore [] h = refl
IsNumeric-IsCore (c ∷ s) h = ground (arith, IsNumeric-IsCore s)

-- What may follow the numbers: nothing, or a pre-release or a build behind `-` or `+`.
abbrev pub is_suffix : String → Bool
is_suffix [] = true
is_suffix (c ∷ s) = code c == 45 || code c == 43

-- White space at the end is trimmed behind the numbers only.
trim_right-core : (s t : String) → IsCore s → trim_space_right (s <> t) ≡ s <> trim_space_right t
unfolding trim_space_right all_chars
trim_right-core [] t h = ap trim_space_right (nil-append t) ∙ sym (nil-append (trim_space_right t))
trim_right-core (c ∷ s) t h =
    ground (arith, cons-append c s t, cons-append c s (trim_space_right t), trim_right-core s t)

trim_right-is_suffix :
    (t : String) → is_suffix t ≡ true → without_metadata (trim_space_right t) ≡ ""
unfolding trim_space_right without_metadata
trim_right-is_suffix [] h = refl
trim_right-is_suffix (c ∷ s) h = ground arith

without_metadata-core :
    (s t : String) → IsCore s → without_metadata (s <> t) ≡ s <> without_metadata t
unfolding without_metadata all_chars
without_metadata-core [] t h =
    ap without_metadata (nil-append t) ∙ sym (nil-append (without_metadata t))
without_metadata-core (c ∷ s) t h =
    ground
      (arith, cons-append c s t, cons-append c s (without_metadata t), without_metadata-core s t)

trim_left-head : (s : String) → head_digit s ≡ true → trim_space_left s ≡ s
unfolding trim_space_left
trim_left-head [] h = refl
trim_left-head (c ∷ s) h = ground arith

trim_prefix-head : (s : String) → head_digit s ≡ true → trim_prefix s "v" ≡ s
unfolding trim_prefix has_prefix
trim_prefix-head [] h = refl
trim_prefix-head (c ∷ s) h = ground arith

append-nil : (s : String) → s <> "" ≡ s
append-nil [] = refl
append-nil (c ∷ s) = ground (arith, cons-append c s "", append-nil s)

with_v : (s : String) → trim_space_right (trim_space_left ("v" <> s)) ≡ "v" <> trim_space_right s
unfolding trim_space_left trim_space_right
with_v s = ground (
  arith,
  cons-append "v" "" s,
  nil-append s,
  cons-append "v" "" (trim_space_right s),
  nil-append (trim_space_right s),
)

-- With or without the leading `v`, the numbers stay.
trimmed :
    (v : Bool) (core t : String)
    → IsCore core
    → head_digit core ≡ true
    → is_suffix t ≡ true
    → without_metadata (trim_prefix (trim_space ((if v then "v" else "") <> (core <> t))) "v")
      ≡ core
unfolding trim_space
trimmed v core t h head suffix = each v
  where
    bare : without_metadata (core <> trim_space_right t) ≡ core
    bare =
        without_metadata-core core (trim_space_right t) h
        ∙ ap (λ x. core <> x) (trim_right-is_suffix t suffix)
        ∙ append-nil core

    each :
        (v : Bool)
        → without_metadata (
            trim_prefix
              (trim_space_right (trim_space_left ((if v then "v" else "") <> (core <> t))))
              "v")
          ≡ core
    each true =
        ap (λ x. without_metadata (trim_prefix x "v"))
          (with_v (core <> t) ∙ ap (λ x. "v" <> x) (trim_right-core core t h))
        ∙ ap without_metadata (trim_prefix-append "v" (core <> trim_space_right t))
        ∙ bare
    each false =
        ap (λ x. without_metadata (trim_prefix (trim_space_right (trim_space_left x)) "v"))
          (nil-append (core <> t))
        ∙ ap (λ x. without_metadata (trim_prefix (trim_space_right x) "v"))
            (trim_left-head (core <> t) (head_digit-append core t head))
        ∙ ap (λ x. without_metadata (trim_prefix x "v")) (trim_right-core core t h)
        ∙ ap without_metadata (
            trim_prefix-head (core <> trim_space_right t)
              (head_digit-append core (trim_space_right t) head))
        ∙ bare

-- Three numbers with dots between them.
abbrev pub dotted : ℕ → ℕ → ℕ → String
dotted a b c = decimal a <> ("." <> (decimal b <> ("." <> decimal c)))

-- A version with or without `v` in front, and with a suffix.
abbrev pub written : Bool → ℕ → ℕ → ℕ → String → String
written v a b c suffix = (if v then "v" else "") <> (dotted a b c <> suffix)

dot : IsCore "."
unfolding all_chars
dot = refl

dotted-IsCore : (a b c : ℕ) → IsCore (dotted a b c) × (head_digit (dotted a b c) ≡ true)
dotted-IsCore a b c =
    let (da, head) = decimal-IsNumeric a in
    let (db, _) = decimal-IsNumeric b in
    let (dc, _) = decimal-IsNumeric c in
    let last = IsCore-append "." (decimal c) dot (IsNumeric-IsCore (decimal c) dc) in
    let middle =
      IsCore-append "." (decimal b <> ("." <> decimal c)) dot
        (IsCore-append (decimal b) ("." <> decimal c) (IsNumeric-IsCore (decimal b) db) last) in
    (
      IsCore-append (decimal a) ("." <> (decimal b <> ("." <> decimal c)))
          (IsNumeric-IsCore (decimal a) da) middle,
      head_digit-append (decimal a) ("." <> (decimal b <> ("." <> decimal c))) head,
    )

split-dotted : (a b c : ℕ) → split (dotted a b c) 46 ≡ decimal a ∷ decimal b ∷ decimal c ∷ []
split-dotted a b c =
    let (da, _) = decimal-IsNumeric a in
    let (db, _) = decimal-IsNumeric b in
    let (dc, _) = decimal-IsNumeric c in
    split-next (decimal a) (decimal b <> ("." <> decimal c)) da
    ∙ ap (λ ps. decimal a ∷ ps)
        (split-next (decimal b) (decimal c) db
          ∙ ap (λ ps. decimal b ∷ ps) (split-last (decimal c) dc))

numbers-next :
    (n a : ℕ) (p : String) (ps : List String) (ks : List ℕ)
    → atoi p ≡ some a
    → numbers n ps ≡ some ks
    → numbers (suc n) (p ∷ ps) ≡ some (a ∷ ks)
unfolding numbers
numbers-next n a p ps ks h k = ground arith

numbers-decimal :
    (a b c : ℕ)
    → a < 9223372036854775808
    → b < 9223372036854775808
    → c < 9223372036854775808
    → numbers 3 (decimal a ∷ decimal b ∷ decimal c ∷ []) ≡ some (a ∷ b ∷ c ∷ [])
unfolding numbers
numbers-decimal a b c ha hb hc =
    numbers-next 2 a (decimal a) (decimal b ∷ decimal c ∷ []) (b ∷ c ∷ []) (atoi-decimal a ha) (
      numbers-next 1 b (decimal b) (decimal c ∷ []) (c ∷ []) (atoi-decimal b hb)
        (numbers-next 0 c (decimal c) [] [] (atoi-decimal c hc) refl))

read_numbers :
    (v : String) (ks : List ℕ)
    → numbers 3 (split (without_metadata (trim_prefix (trim_space v) "v")) 46) ≡ some ks
    → parse_version_core v ≡ some (core_of ks)
unfolding parse_version_core
read_numbers v ks h = ground arith

pub parse_version_core-written :
    (v : Bool) (a b c : ℕ) (suffix : String)
    → a < 9223372036854775808
    → b < 9223372036854775808
    → c < 9223372036854775808
    → is_suffix suffix ≡ true
    → parse_version_core (written v a b c suffix)
      ≡ some (record { major = a; minor = b; patch = c })
unfolding core_of
parse_version_core-written v a b c suffix ha hb hc h =
    let (core, head) = dotted-IsCore a b c in
    read_numbers (written v a b c suffix) (a ∷ b ∷ c ∷ []) (
      ap (λ x. numbers 3 (split x 46)) (trimmed v (dotted a b c) suffix core head h)
      ∙ ap (numbers 3) (split-dotted a b c)
      ∙ numbers-decimal a b c ha hb hc)
