-- ===== src/Compose/Services.antt =====
-- internal/engine/compose.go: `validateComposeSecurity`, the checks of the services of a compose file.
use apod.Base.{
  ℕ, Bool, true, false, not, String, Option, none, some, List, [], ◌∷◌, Result, ok, err, plain,
  wrapping, ◌>>=◌, ◌>>◌, ◌==◌, nat_eq, string_eq, if◌then◌else◌, any, has_prefix, trim_space,
  trim_prefix, ltb,
}
use apod.Base.Names.{to_lower, to_upper, trim_where, remove_char}
use apod.Compose.{
  is_quote, is_host_namespace, check_compose_namespace, VolumeNode, check_compose_volume,
}

-- The settings of a service that are checked.
pub record ServiceConfig : Type 0 where
  pub image : String
  pub privileged : Bool
  pub cap_add : List String
  pub devices : ℕ
  pub pid : String
  pub ipc : String
  pub network_mode : String
  pub userns_mode : String
  pub security_opt : List String
  pub volumes : List VolumeNode

-- A service: the keys of its node, if it is a mapping, and what the settings decode to.
pub record ServiceNode : Type 0 where
  pub keys : Option (List String)
  pub config : Result ServiceConfig

abbrev pub is_member_of : List String → String → Bool
is_member_of xs x = any (λ y. y == x) xs

abbrev pub dangerous_compose_keys : List String
dangerous_compose_keys =
    "volumes_from" ∷ "cgroup_parent" ∷ "cgroup" ∷ "group_add" ∷ "device_cgroup_rules" ∷ "sysctls"
    ∷ "extends" ∷ "uts" ∷ "runtime" ∷ "oom_kill_disable" ∷ "ulimits" ∷ "shm_size" ∷ "tmpfs"
    ∷ "pids_limit" ∷ "dns" ∷ "dns_search" ∷ "dns_opt" ∷ "extra_hosts" ∷ []

unfoldable pub is_dangerous_key : String → Bool
unfolding any to_lower trim_space
is_dangerous_key key = is_member_of dangerous_compose_keys (to_lower (trim_space key))

-- `rejectDangerousComposeKeys`.
unfoldable pub reject_dangerous_compose_keys : Option (List String) → Result (Unit {0})
unfolding any is_dangerous_key
reject_dangerous_compose_keys none = ok tt
reject_dangerous_compose_keys (some keys) =
    if any is_dangerous_key keys
    then err (plain "service %q: compose key %q is not allowed")
    else ok tt

-- `imageAllowed`; the prefixes come from the environment.
unfoldable pub image_allowed : List String → String → Bool
unfolding any has_prefix to_lower trim_space
image_allowed [] image = true
image_allowed (p ∷ prefixes) image =
    any (λ q. has_prefix (to_lower (trim_space image)) (to_lower q)) (p ∷ prefixes)

abbrev pub default_docker_caps : List String
default_docker_caps =
    "CHOWN" ∷ "DAC_OVERRIDE" ∷ "FSETID" ∷ "FOWNER" ∷ "MKNOD" ∷ "NET_RAW" ∷ "SETGID" ∷ "SETUID"
    ∷ "SETFCAP" ∷ "SETPCAP" ∷ "NET_BIND_SERVICE" ∷ "SYS_CHROOT" ∷ "KILL" ∷ "AUDIT_WRITE" ∷ []

unfoldable pub is_default_cap : String → Bool
unfolding any to_upper trim_space trim_prefix
is_default_cap c =
    is_member_of default_docker_caps
      (to_upper (trim_space (trim_prefix (to_upper (trim_space c)) "CAP_")))

-- `norm` of a security option, and the values that pass.
unfoldable pub is_allowed_security_opt : String → Bool
unfolding any to_lower trim_space trim_where remove_char
is_allowed_security_opt so =
    is_member_of ("no-new-privileges" ∷ "no-new-privileges:true" ∷ "no-new-privileges:false" ∷ [])
      (trim_where is_quote (to_lower (remove_char 32 (trim_space so))))

-- A loop that stops at the first element that does not pass.
unfoldable pub check_each {ℓ} : {A : Type ℓ} → (A → Result (Unit {0})) → List A → Result (Unit {0})
check_each check [] = ok tt
check_each check (x ∷ xs) = check x >> check_each check xs

abbrev pub require : Bool → String → Result (Unit {0})
require true msg = ok tt
require false msg = err (plain msg)

module _ (allowed_prefixes : List String) (comp_dir : String) where
  -- The checks of a decoded service.
  unfoldable pub check_config : ServiceConfig → Result (Unit {0})
  unfolding image_allowed is_default_cap check_compose_namespace is_host_namespace
      is_allowed_security_opt check_compose_volume check_each
  check_config svc =
      require (image_allowed allowed_prefixes svc.image)
        "service %q: image %q is not from an allowed registry"
      >> (require (not svc.privileged) "service %q: privileged mode is not allowed"
          >> (check_each (λ c. require (is_default_cap c) "service %q: cap_add %q is not allowed")
                svc.cap_add
              >> (require (not (ltb 0 svc.devices))
                    "service %q: host device passthrough is not allowed"
                  >> (check_compose_namespace svc.pid
                      >> (check_compose_namespace svc.ipc
                          >> (check_compose_namespace svc.network_mode
                              >> (require (not (is_host_namespace svc.userns_mode))
                                    "service %q: userns_mode: host is not allowed"
                                  >> (check_each
                                        (λ so.
                                          require (is_allowed_security_opt so)
                                            "service %q: security_opt %q is not allowed")
                                        svc.security_opt
                                      >> check_each (check_compose_volume comp_dir)
                                          svc.volumes))))))))

  -- The body of the loop over the services.
  unfoldable pub check_service : ServiceNode → Result (Unit {0})
  unfolding reject_dangerous_compose_keys check_config
  check_service node =
      reject_dangerous_compose_keys node.keys
      >> (wrapping "service %q: parse: %w" node.config >>= check_config)

  -- `validateComposeSecurity`, of a file that is read and decoded or not.
  unfoldable pub validate_compose_security : Result (List ServiceNode) → Result (Unit {0})
  unfolding check_each check_service
  validate_compose_security services =
      wrapping "parse compose: %w" services >>= check_each check_service
