-- ===== src/Tests/Compose.antt =====
-- Compose files of a tenant.
use apod.Base.{
  ◌≡◌, refl, Bool, true, false, String, some, List, [], ◌∷◌, Result, ok, All, has_prefix,
  trim_space, ◌⊎◌, is_ok,
}
use apod.Compose.{VolumeNode, volume_source, check_source, check_compose_volume}
use apod.Compose.Services.{ServiceConfig, ServiceNode, validate_compose_security}
use apod.Compose.Paths.{Allowed, IsUnread, check_compose_volume-decides}
use apod.Compose.Blocklist.{check_source-relative_home}
use apod.Compose.Confinement.{Confined, validate_compose_security-Confined}
use apod.Compose.Sanitizing.{sanitize_compose_file}
use apod.Compose.Sanitizing.Lines.{
  IsKept, sanitize_compose_file-IsKept, sanitize_compose_file-keeps,
}

abbrev comp_dir : String
comp_dir = "/var/lib/apod/sites/a.com/data/compose"

abbrev mount : VolumeNode
mount = VolumeNode.scalar "./data/../db:/var/lib/mysql"

absolute : has_prefix comp_dir "/" ≡ true
unfolding has_prefix
absolute = refl

check_compose_volume-decides_example :
    (check_compose_volume comp_dir mount ≡ ok tt
      → IsUnread comp_dir absolute (trim_space (volume_source mount))
        ⊎ Allowed comp_dir absolute (trim_space (volume_source mount)))
    × (IsUnread comp_dir absolute (trim_space (volume_source mount))
          ⊎ Allowed comp_dir absolute (trim_space (volume_source mount))
        → check_compose_volume comp_dir mount ≡ ok tt)
check_compose_volume-decides_example = check_compose_volume-decides comp_dir absolute mount

-- The home directory of the user that runs `docker compose`, and /etc by a source of the long form.
unread :
    (check_compose_volume comp_dir (VolumeNode.scalar "~/.ssh:/keys") ≡ ok tt)
    × (check_compose_volume comp_dir (VolumeNode.mapping (ok "x/../../../../../../../etc")) ≡ ok tt)
unfolding check_compose_volume check_source
unread = (refl, refl)

refused :
    check_compose_volume comp_dir (VolumeNode.scalar "../../../../../../var/run/docker.sock:/s")
    ≡ check_source comp_dir "../../../../../../var/run/docker.sock"
unfolding check_compose_volume
refused = refl

-- A parent of a dangerous path is mounted.
parent_mounted : check_compose_volume comp_dir (VolumeNode.scalar "/var/lib:/host") ≡ ok tt
unfolding check_compose_volume check_source
parent_mounted = refl

abbrev home_dir : String
home_dir = "/home/alice/sites/a.com/data/compose"

at_home : has_prefix home_dir "/home/" ≡ true
unfolding has_prefix
at_home = refl

check_source-relative_home_example : is_ok (check_source home_dir "./data") ≡ false
unfolding has_prefix
check_source-relative_home_example = check_source-relative_home home_dir at_home "./data" refl refl

abbrev web : ServiceConfig
web = record {
  image = "nginx";
  privileged = false;
  cap_add = "cap_chown" ∷ [];
  devices = 0;
  pid = "";
  ipc = "";
  network_mode = "bridge";
  userns_mode = "";
  security_opt = "no-new-privileges: true" ∷ [];
  volumes = mount ∷ VolumeNode.mapping (ok "data") ∷ VolumeNode.other_node ∷ [];
}

abbrev services : List ServiceNode
services = record { keys = some ("image" ∷ "volumes" ∷ []); config = ok web } ∷ []

valid : validate_compose_security [] comp_dir (ok services) ≡ ok tt
unfolding validate_compose_security
valid = refl

validate_compose_security-Confined_example :
    (found : List ServiceNode) × (◌≡◌ {A = Result (List ServiceNode)} (ok services) (ok found))
    × All (Confined [] comp_dir) found
validate_compose_security-Confined_example =
    validate_compose_security-Confined [] comp_dir (ok services) valid

abbrev lines : List String
lines =
    "name: shop" ∷ "services:" ∷ "  web:" ∷ "    container_name: \"web\"" ∷ "    ports:"
    ∷ "      - 80:80" ∷ "    image: nginx" ∷ []

abbrev anonymous : String → Bool
anonymous service = false

sanitized :
    sanitize_compose_file anonymous lines
    ≡ "services:" ∷ "  web:" ∷ "    hostname: web" ∷ "    image: nginx" ∷ []
unfolding sanitize_compose_file
sanitized = refl

sanitize_compose_file-IsKept_example : All IsKept (sanitize_compose_file anonymous lines)
sanitize_compose_file-IsKept_example = sanitize_compose_file-IsKept anonymous lines

-- Host ports under a quoted key.
abbrev quoted : List String
quoted = "services:" ∷ "  web:" ∷ "    \"ports\": [\"80:80\"]" ∷ []

quoted-IsKept : All IsKept quoted
unfolding has_prefix trim_space
quoted-IsKept = (refl, (refl, (refl, tt)))

sanitize_compose_file-keeps_example : sanitize_compose_file anonymous quoted ≡ quoted
sanitize_compose_file-keeps_example = sanitize_compose_file-keeps anonymous quoted quoted-IsKept
