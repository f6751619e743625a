-- ===== src/Compose/Sanitizing.antt =====
-- internal/engine/compose.go: `sanitizeComposeFile`, on the lines of the file. Which services have a host name
-- of their own is what the YAML library decodes.
pub mod Lines
use apod.Base.{
  ℕ, Bool, true, false, not, ◌&&◌, ◌||◌, String, ◌<>◌, Option, none, some, List, [], ◌∷◌, ◌++◌,
  ◌==◌, nat_eq, string_eq, if◌then◌else◌, codes, length, ltb, has_prefix, trim_prefix, trim_space,
}
use Prim.Native.Char.{code}
use Prim.Native.String.{[], ◌∷◌}
use apod.Base.Names.{trim_where}
use apod.Compose.{is_quote}

-- The white space that a line begins with, `line[:indentWidth]`.
unfoldable pub indent_of : String → String
indent_of [] = ""
indent_of (c ∷ s) = if code c == 32 || code c == 9 then c ∷ indent_of s else ""

abbrev pub indent_width : String → ℕ
indent_width line = length (codes (indent_of line))

-- `strings.Contains` of one character.
unfoldable pub contains_char : ℕ → String → Bool
contains_char c [] = false
contains_char c (x ∷ s) = code x == c || contains_char c s

-- The last code point, and the text before it.
unfoldable pub ends_with : ℕ → String → Bool
ends_with c [] = false
ends_with c (x ∷ []) = code x == c
ends_with c (x ∷ y ∷ s) = ends_with c (y ∷ s)

unfoldable pub drop_last : String → String
drop_last [] = ""
drop_last (x ∷ []) = ""
drop_last (x ∷ y ∷ s) = x ∷ drop_last (y ∷ s)

-- The last line that was kept.
unfoldable pub last_line : List String → Option String
last_line [] = none
last_line (l ∷ []) = some l
last_line (l ∷ next ∷ ls) = last_line (next ∷ ls)

-- The variables of the loop; no service indent is the source's -1.
pub record Scan : Type 0 where
  pub out : List String
  pub in_ports : Bool
  pub in_flow_ports : Bool
  pub ports_indent : ℕ
  pub service_indent : Option ℕ
  pub current_service : String

abbrev pub first_scan : Scan
first_scan = record {
  out = [];
  in_ports = false;
  in_flow_ports = false;
  ports_indent = 0;
  service_indent = none;
  current_service = "";
}

-- Whether the last kept line opens the services.
unfoldable pub opens_services : Option String → Bool
unfolding trim_space
opens_services none = false
opens_services (some l) = trim_space l == "services:"

-- The indent of the services, as of a line.
unfoldable pub next_indent : String → Scan → Option ℕ
unfolding trim_space has_prefix last_line opens_services indent_of
next_indent line s = if trim_space line == "services:" then none else elim s.service_indent [
  | some n ↦ some n
  | none ↦
      if not (trim_space line == "")
        && not (has_prefix (trim_space line) "#")
        && opens_services (last_line s.out)
      then some (indent_width line)
      else none
]

-- The service that a line opens.
unfoldable pub next_service : String → Option ℕ → String → String
unfolding trim_space ends_with contains_char drop_last indent_of
next_service line none current = current
next_service line (some n) current =
    if indent_width line == n
      && ends_with 58 (trim_space line)
      && not (contains_char 32 (trim_space line))
    then drop_last (trim_space line)
    else current

unfoldable pub track : String → Scan → Scan
unfolding next_indent next_service
track line s = record s {
  service_indent = next_indent line s;
  current_service = next_service line (next_indent line s) s.current_service;
}

abbrev pub keep : String → Scan → Scan
keep line s = record s { out = s.out ++ line ∷ [] }

-- A container name, as a host name.
unfoldable pub hostname_line : String → String
unfolding indent_of trim_space trim_prefix trim_where
hostname_line line =
    indent_of line
    <> ("hostname: "
        <> trim_where is_quote (trim_space (trim_prefix (trim_space line) "container_name:")))

-- What begins with a `ports:` line.
unfoldable pub open_ports : String → Scan → Scan
unfolding trim_space trim_prefix has_prefix contains_char indent_of
open_ports line s =
    let rest = trim_space (trim_prefix (trim_space line) "ports:") in
    if rest == "" || has_prefix rest "#"
    then record s { in_ports = true; ports_indent = indent_width line }
    else if has_prefix rest "[" && not (contains_char 93 rest)
    then record s { in_flow_ports = true }
    else s

-- A line that is none of the three.
unfoldable pub plain_line : String → Scan → Scan
unfolding trim_space has_prefix contains_char indent_of
plain_line line s =
    if s.in_flow_ports
    then (if contains_char 93 (trim_space line) then record s { in_flow_ports = false } else s)
    else if s.in_ports
        && (trim_space line == ""
            || ltb s.ports_indent (indent_width line)
            || has_prefix (trim_space line) "-")
    then s
    else keep line (record s { in_ports = false })

module _ (has_hostname : String → Bool) where
  unfoldable pub scan_tracked : String → Scan → Scan
  unfolding has_prefix trim_space hostname_line open_ports plain_line
  scan_tracked line s =
      if has_prefix line "name:"
      then s
      else if has_prefix (trim_space line) "container_name:"
      then (if has_hostname s.current_service then s else keep (hostname_line line) s)
      else if has_prefix (trim_space line) "ports:"
      then open_ports line s
      else plain_line line s

  -- The loop over the lines.
  unfoldable pub scan : List String → Scan → Scan
  unfolding track scan_tracked
  scan [] s = s
  scan (line ∷ lines) s = scan lines (scan_tracked line (track line s))

  -- `sanitizeComposeFile`.
  unfoldable pub sanitize_compose_file : List String → List String
  unfolding scan
  sanitize_compose_file lines = (scan lines first_scan).out
