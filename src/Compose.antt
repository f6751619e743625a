-- ===== src/Compose.antt =====
-- internal/engine/compose.go: what a compose file of a tenant may ask for. The YAML library decodes the file, so
-- a service is given as its keys and its decoded settings, each of which may be missing.
pub mod Paths
pub mod Blocklist
pub mod Services
pub mod Confinement
pub mod Sanitizing
use apod.Base.{
  ℕ, Bool, true, false, not, ◌&&◌, ◌||◌, String, ◌<>◌, Option, none, some, List, [], ◌∷◌, Result,
  ok, err, plain, invalid, wrapping, ◌>>=◌, ◌>>◌, ◌==◌, nat_eq, string_eq, if◌then◌else◌, any,
  has_prefix, cut_prefix, split, trim_space, trim_prefix, ltb,
}
use apod.Base.Names.{to_lower, to_upper, trim_where, remove_char, before}

-- The elements `..` of `filepath.Clean`.
unfoldable pub pop : Bool → List String → List String
pop true [] = []
pop false [] = ".." ∷ []
pop rooted (t ∷ ts) = if t == ".." then ".." ∷ t ∷ ts else ts

-- An element of the path, with the kept ones in reverse.
unfoldable pub clean_step : Bool → List String → String → List String
unfolding pop
clean_step rooted stack p =
    if p == "" || p == "." then stack else if p == ".." then pop rooted stack else p ∷ stack

unfoldable pub clean_parts : Bool → List String → List String → List String
unfolding clean_step
clean_parts rooted stack [] = stack
clean_parts rooted stack (p ∷ ps) = clean_parts rooted (clean_step rooted stack p) ps

-- The path of the kept elements, each behind a slash.
unfoldable pub path_of : List String → String → String
path_of [] tail = tail
path_of (p ∷ stack) tail = path_of stack ("/" <> (p <> tail))

unfoldable pub or_else : String → String → String
or_else default s = if s == "" then default else s

-- `filepath.Clean`.
unfoldable pub clean : String → String
unfolding clean_parts path_of or_else has_prefix cut_prefix split
clean path =
    if has_prefix path "/"
    then or_else "/" (path_of (clean_parts true [] (split path 47)) "")
    else or_else "." (cut_prefix (path_of (clean_parts false [] (split path 47)) "") "/")

abbrev pub is_quote : ℕ → Bool
is_quote c = c == 34 || c == 39

-- `strings.ToLower(strings.TrimSpace(strings.Trim(v, "\"'")))`.
unfoldable pub normal_namespace : String → String
unfolding to_lower trim_space trim_where
normal_namespace v = to_lower (trim_space (trim_where is_quote v))

-- `isHostNamespace`.
unfoldable pub is_host_namespace : String → Bool
unfolding normal_namespace has_prefix
is_host_namespace v = normal_namespace v == "host" || has_prefix (normal_namespace v) "host:"

-- `checkComposeNamespace`.
unfoldable pub check_compose_namespace : String → Result (Unit {0})
unfolding is_host_namespace normal_namespace has_prefix
check_compose_namespace v =
    if is_host_namespace (normal_namespace v)
    then err (plain "service %q: %s: host is not allowed")
    else if has_prefix (normal_namespace v) "container:"
        || has_prefix (normal_namespace v) "service:"
    then err (plain "service %q: %s joining another container/service namespace is not allowed")
    else ok tt

abbrev pub dangerous_mount_sources : List String
dangerous_mount_sources =
    "/var/run/docker.sock" ∷ "/run/docker.sock" ∷ "/var/run" ∷ "/run" ∷ "/" ∷ "/etc" ∷ "/root"
    ∷ "/proc" ∷ "/sys" ∷ "/boot" ∷ "/dev" ∷ "/var/lib/docker" ∷ "/home" ∷ []

abbrev pub native_dangerous_mounts : List String
native_dangerous_mounts =
    "/var/run/docker.sock" ∷ "/run/docker.sock" ∷ "/var/run" ∷ "/run" ∷ "/" ∷ "/etc" ∷ "/root"
    ∷ "/proc" ∷ "/sys" ∷ "/boot" ∷ "/dev" ∷ "/var/lib/docker" ∷ []

-- A path that is another one or below it, as both checks write it.
unfoldable pub is_at_or_below : String → String → Bool
unfolding has_prefix
is_at_or_below path bad = path == bad || has_prefix path (bad <> "/")

abbrev pub apod_control_socket_dir : String
apod_control_socket_dir = "/run/apod"

-- `validateNativeHostMount`.
unfoldable pub validate_native_host_mount : String → Result (Unit {0})
unfolding trim_space has_prefix clean is_at_or_below any
validate_native_host_mount given =
    let source = trim_space given in
    if not (has_prefix source "/")
    then ok tt
    else if is_at_or_below (clean source) apod_control_socket_dir
    then ok tt
    else if any (is_at_or_below (clean source)) native_dangerous_mounts
    then err (invalid "bind mount of host path %q is not allowed")
    else ok tt

-- A volume of a service: a text, a mapping with its `source`, or another node.
pub data VolumeNode : Type 0 where
  scalar : String → VolumeNode
  mapping : Result String → VolumeNode
  other_node : VolumeNode

-- The source of a volume before it is trimmed.
unfoldable pub volume_source : VolumeNode → String
unfolding before
volume_source (VolumeNode.scalar v) = before 58 v
volume_source (VolumeNode.mapping (ok source)) = source
volume_source (VolumeNode.mapping (err x)) = ""
volume_source VolumeNode.other_node = ""

-- The path on the host that a bind mount names; relative ones are resolved against the project.
unfoldable pub resolved : String → String → String
unfolding has_prefix clean
resolved comp_dir source =
    if has_prefix source "/" then clean source else clean (clean (comp_dir <> ("/" <> source)))

-- A relative path that leaves the project.
unfoldable pub escapes : String → String → Bool
unfolding has_prefix resolved is_at_or_below
escapes comp_dir source =
    not (has_prefix source "/") && not (is_at_or_below (resolved comp_dir source) comp_dir)

unfoldable pub check_source : String → String → Result (Unit {0})
unfolding has_prefix resolved escapes is_at_or_below any
check_source comp_dir source =
    if source == ""
    then ok tt
    else if not (has_prefix source "/") && not (has_prefix source ".")
    then ok tt
    else if escapes comp_dir source
    then err (plain "service %q: relative bind mount %q escapes the project directory")
    else if any (is_at_or_below (resolved comp_dir source)) dangerous_mount_sources
    then err (plain "service %q: bind mount of host path %q is not allowed")
    else ok tt

-- `checkComposeVolume`.
unfoldable pub check_compose_volume : String → VolumeNode → Result (Unit {0})
unfolding trim_space volume_source check_source
check_compose_volume comp_dir node = check_source comp_dir (trim_space (volume_source node))
