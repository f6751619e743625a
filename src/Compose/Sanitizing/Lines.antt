-- ===== src/Compose/Sanitizing/Lines.antt =====
-- Which lines a sanitised compose file has.
use Prim.Native.Char.{code}
use Prim.Native.String.{[], ◌∷◌}
use text.Mathlib.TextLemmas.{cons-append, nil-append}
use apod.Base.{
  ◌≡◌, refl, sym, ap, ◌∙◌, inl, inr, Bool, true, false, not, ◌&&◌, ◌||◌, String, ◌<>◌, List, [],
  ◌∷◌, ◌++◌, ◌==◌, nat_eq, string_eq, if◌then◌else◌, All, ltb, has_prefix, trim_prefix, trim_space,
  trim_space_left, trim_space_right, trim_char, arith, Bool-cases,
}
use apod.Base.Names.{trim_where}
use apod.Compose.{is_quote}
use apod.Compose.Sanitizing.{
  indent_of, indent_width, contains_char, Scan, first_scan, track, keep, hostname_line, open_ports,
  plain_line, scan_tracked, scan, sanitize_compose_file,
}

-- A line that the sanitising drops or rewrites.
abbrev pub is_rewritten : String → Bool
is_rewritten line =
    has_prefix line "name:"
    || (has_prefix (trim_space line) "container_name:" || has_prefix (trim_space line) "ports:")

abbrev pub IsKept : String → Type 0
IsKept line = is_rewritten line ≡ false

All-append {ℓ} :
    {A : Type ℓ} (P : A → Type 0) (xs : List A) (x : A) → All P xs → P x → All P (xs ++ x ∷ [])
All-append P [] x h p = (p, tt)
All-append P (y ∷ xs) x h p = (h.0, All-append P xs x h.1 p)

-- An indent is trimmed away.
trim-indent_of : (s t : String) → trim_space_left (indent_of s <> t) ≡ trim_space_left t
unfolding indent_of trim_space_left
trim-indent_of [] t = ap trim_space_left (nil-append t)
trim-indent_of (c ∷ s) t = elim (Bool-cases (code c == 32 || code c == 9)) [
  | inr n ↦ rw n (ap trim_space_left (nil-append t))
  | inl y ↦
      rw y (ap trim_space_left (cons-append c (indent_of s) t) ∙ skipped y (trim-indent_of s t))
]
  where
    skipped :
        (code c == 32 || code c == 9) ≡ true
        → trim_space_left (indent_of s <> t) ≡ trim_space_left t
        → trim_space_left (c ∷ (indent_of s <> t)) ≡ trim_space_left t
    skipped y e = ground arith

hostname-first : (name : String) → "hostname: " <> name ≡ "h" ∷ ("ostname: " <> name)
hostname-first name = cons-append "h" "ostname: " name

hostname-bare : (name : String) → has_prefix ("" <> ("hostname: " <> name)) "name:" ≡ false
unfolding has_prefix
hostname-bare name =
    ap (λ x. has_prefix x "name:") (nil-append ("hostname: " <> name) ∙ hostname-first name)

hostname-no_name :
    (line name : String) → has_prefix (indent_of line <> ("hostname: " <> name)) "name:" ≡ false
unfolding indent_of has_prefix
hostname-no_name [] name = hostname-bare name
hostname-no_name (c ∷ s) name = elim (Bool-cases (code c == 32 || code c == 9)) [
  | inr n ↦ rw n (hostname-bare name)
  | inl y ↦ rw y (
      ap (λ x. has_prefix x "name:") (cons-append c (indent_of s) ("hostname: " <> name)) ∙ space y)
]
  where
    space :
        (code c == 32 || code c == 9) ≡ true
        → has_prefix (c ∷ (indent_of s <> ("hostname: " <> name))) "name:" ≡ false
    space y = ground arith

hostname-trimmed :
    (line name : String)
    → trim_space (indent_of line <> ("hostname: " <> name))
      ≡ "h" ∷ trim_space_right ("ostname: " <> name)
unfolding trim_space trim_space_left trim_space_right trim_char
hostname-trimmed line name =
    ap trim_space_right
      (trim-indent_of line ("hostname: " <> name) ∙ ap trim_space_left (hostname-first name))

hostname_line-IsKept : (line : String) → IsKept (hostname_line line)
unfolding hostname_line has_prefix
hostname_line-IsKept line = together (hostname-no_name line name) (hostname-trimmed line name)
  where
    name : String
    name = trim_where is_quote (trim_space (trim_prefix (trim_space line) "container_name:"))

    together :
        has_prefix (hostname_line line) "name:" ≡ false
        → trim_space (hostname_line line) ≡ "h" ∷ trim_space_right ("ostname: " <> name)
        → IsKept (hostname_line line)
    together a b = rw (a, b) refl

-- The kept lines are not rewritten ones.
record IsClean (s : Scan) : Type 0 where
  clean : All IsKept s.out

pick :
    (b : Bool) (x y : Scan)
    → (b ≡ true → IsClean x)
    → (b ≡ false → IsClean y)
    → IsClean (if b then x else y)
pick true x y f g = f refl
pick false x y f g = g refl

open_ports-IsClean : (line : String) (s : Scan) → IsClean s → IsClean (open_ports line s)
unfolding open_ports
open_ports-IsClean line s c =
    pick (rest == "" || has_prefix rest "#")
      (record s { in_ports = true; ports_indent = indent_width line })
      (if opens then record s { in_flow_ports = true } else s) (λ h. record { clean = c.clean })
      (λ h.
        pick opens (record s { in_flow_ports = true }) s (λ h. record { clean = c.clean }) (λ h. c))
  where
    rest : String
    rest = trim_space (trim_prefix (trim_space line) "ports:")

    opens : Bool
    opens = has_prefix rest "[" && not (contains_char 93 rest)

plain_line-IsClean :
    (line : String) (s : Scan) → IsKept line → IsClean s → IsClean (plain_line line s)
unfolding plain_line
plain_line-IsClean line s k c =
    pick s.in_flow_ports (if closes then record s { in_flow_ports = false } else s)
      (if inside then s else keep line (record s { in_ports = false }))
      (λ h.
        pick closes (record s { in_flow_ports = false }) s (λ h. record { clean = c.clean })
          (λ h. c))
      (λ h.
        pick inside s (keep line (record s { in_ports = false })) (λ h. c)
          (λ h. record { clean = All-append IsKept s.out line c.clean k }))
  where
    closes : Bool
    closes = contains_char 93 (trim_space line)

    inside : Bool
    inside =
        s.in_ports
        && (trim_space line == ""
            || ltb s.ports_indent (indent_width line)
            || has_prefix (trim_space line) "-")

none_of : (a b c : Bool) → a ≡ false → b ≡ false → c ≡ false → a || (b || c) ≡ false
none_of a b c h k l = ground arith

all_of : (a b c : Bool) → a || (b || c) ≡ false → (a ≡ false) × (b ≡ false) × (c ≡ false)
all_of a b c h = ground arith

last_branch :
    (a b c : Bool) (x y z w : Scan)
    → (a ≡ false) × (b ≡ false) × (c ≡ false)
    → (if a then x else if b then y else if c then z else w) ≡ w
last_branch a b c x y z w (h, k, l) = rw (h, k, l) refl

second_branch :
    (a b c : Bool) (x y w : Scan)
    → a ≡ false
    → b ≡ false
    → (if a then x else if b && c then y else w) ≡ w
second_branch a b c x y w h k = rw (h, k) refl

append_nil {ℓ} : {A : Type ℓ} (xs : List A) → xs ≡ xs ++ []
append_nil [] = refl
append_nil (x ∷ xs) = ap (λ y. x ∷ y) (append_nil xs)

append_one {ℓ} : {A : Type ℓ} (xs ys : List A) (x : A) → (xs ++ x ∷ []) ++ ys ≡ xs ++ x ∷ ys
append_one [] ys x = refl
append_one (y ∷ xs) ys x = ap (λ z. y ∷ z) (append_one xs ys x)

module _ (has_hostname : String → Bool) where
  scan_tracked-IsClean :
      (line : String) (s : Scan) → IsClean s → IsClean (scan_tracked has_hostname line s)
  unfolding scan_tracked
  scan_tracked-IsClean line s c =
      pick (has_prefix line "name:") s others (λ a. c)
        (λ a.
          pick (has_prefix (trim_space line) "container_name:") named rest
            (λ b.
              pick (has_hostname s.current_service) s (keep (hostname_line line) s) (λ h. c)
                (λ h. record {
                  clean =
                      All-append IsKept s.out (hostname_line line) c.clean
                        (hostname_line-IsKept line);
                }))
            (λ b.
              pick (has_prefix (trim_space line) "ports:") (open_ports line s) (plain_line line s)
                (λ p. open_ports-IsClean line s c)
                (λ p.
                  plain_line-IsClean line s
                    (none_of (has_prefix line "name:")
                      (has_prefix (trim_space line) "container_name:")
                      (has_prefix (trim_space line) "ports:") a b p)
                    c)))
    where
      named : Scan
      named = if has_hostname s.current_service then s else keep (hostname_line line) s

      rest : Scan
      rest = if has_prefix (trim_space line) "ports:" then open_ports line s else plain_line line s

      others : Scan
      others = if has_prefix (trim_space line) "container_name:" then named else rest

  scan-IsClean : (lines : List String) (s : Scan) → IsClean s → IsClean (scan has_hostname lines s)
  unfolding scan track
  scan-IsClean [] s c = c
  scan-IsClean (line ∷ lines) s c =
      scan-IsClean lines (scan_tracked has_hostname line (track line s))
        (scan_tracked-IsClean line (track line s) (record { clean = c.clean }))

  -- No line of a sanitised file begins with `name:`, and none begins with `container_name:` or `ports:` after
  -- its white space.
  pub sanitize_compose_file-IsKept :
      (lines : List String) → All IsKept (sanitize_compose_file has_hostname lines)
  unfolding sanitize_compose_file
  sanitize_compose_file-IsKept lines =
      let done = scan-IsClean lines first_scan (record { clean = tt }) in done.clean

  -- A state outside of any ports.
  plain_line-kept :
      (line : String) (s : Scan)
      → s.in_ports ≡ false
      → s.in_flow_ports ≡ false
      → plain_line line s ≡ keep line s
  unfolding plain_line
  plain_line-kept line s p f =
      second_branch s.in_flow_ports s.in_ports
        (trim_space line == ""
          || ltb s.ports_indent (indent_width line)
          || has_prefix (trim_space line) "-")
        (if contains_char 93 (trim_space line) then record s { in_flow_ports = false } else s) s
        (keep line (record s { in_ports = false })) f p
      ∙ ap (λ b. keep line (record s { in_ports = b })) (sym p)

  scan_tracked-kept :
      (line : String) (s : Scan)
      → IsKept line
      → s.in_ports ≡ false
      → s.in_flow_ports ≡ false
      → scan_tracked has_hostname line s ≡ keep line s
  unfolding scan_tracked
  scan_tracked-kept line s k p f =
      last_branch (has_prefix line "name:") (has_prefix (trim_space line) "container_name:")
        (has_prefix (trim_space line) "ports:") s
        (if has_hostname s.current_service then s else keep (hostname_line line) s)
        (open_ports line s) (plain_line line s)
        (all_of (has_prefix line "name:") (has_prefix (trim_space line) "container_name:")
          (has_prefix (trim_space line) "ports:") k)
      ∙ plain_line-kept line s p f

  scan-kept :
      (lines : List String) (s : Scan)
      → All IsKept lines
      → s.in_ports ≡ false
      → s.in_flow_ports ≡ false
      → (scan has_hostname lines s).out ≡ s.out ++ lines
  unfolding scan track
  scan-kept [] s k p f = append_nil s.out
  scan-kept (line ∷ lines) s k p f =
      ap (λ (t : Scan). (scan has_hostname lines t).out)
        (scan_tracked-kept line (track line s) k.0 p f)
      ∙ scan-kept lines (keep line (track line s)) k.1 p f
      ∙ append_one s.out lines line

  -- A file without such lines is left as it is, whatever else it says; so sanitising twice is sanitising once.
  pub sanitize_compose_file-keeps :
      (lines : List String) → All IsKept lines → sanitize_compose_file has_hostname lines ≡ lines
  unfolding sanitize_compose_file
  sanitize_compose_file-keeps lines k = scan-kept lines first_scan k refl refl
