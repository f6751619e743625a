-- ===== src/Compose/Confinement.antt =====
-- A compose file that is accepted confines every one of its services.
use apod.Base.{
  ℕ, ◌≡◌, ◌≢◌, refl, sym, ap, subst, ◌∙◌, Bool, true, false, not, ◌||◌, String, Option, none, some,
  List, [], ◌∷◌, Result, ok, err, Error, plain, wrapping, ◌>>=◌, ◌>>◌, ◌==◌, nat_eq, string_eq,
  if◌then◌else◌, any, All, has_prefix, ltb, arith,
}
use apod.Compose.{
  normal_namespace, is_host_namespace, check_compose_namespace, check_compose_volume,
}
use apod.Compose.Services.{
  ServiceConfig, ServiceNode, is_dangerous_key, reject_dangerous_compose_keys, image_allowed,
  is_default_cap, is_allowed_security_opt, check_each, require, check_config, check_service,
  validate_compose_security,
}

-- Two checks that pass one after the other.
then-ok : (r k : Result (Unit {0})) → (r >> k) ≡ ok tt → (r ≡ ok tt) × (k ≡ ok tt)
then-ok (ok u) k h = (refl, h)
then-ok (err x) k h = absurd (failed h)
  where
    failed : ◌≡◌ {A = Result (Unit {0})} (err x) (ok tt) → ⊥
    failed q = cc

require-ok : (b : Bool) (msg : String) → require b msg ≡ ok tt → b ≡ true
require-ok true msg h = refl
require-ok false msg h = ground arith

check_each-ok {ℓ} :
    {A : Type ℓ} (check : A → Result (Unit {0})) (P : A → Type 0)
    → ((x : A) → check x ≡ ok tt → P x)
    → (xs : List A) → check_each check xs ≡ ok tt
    → All P xs
unfolding check_each
check_each-ok check P f [] h = tt
check_each-ok check P f (x ∷ xs) h =
    let (first, rest) = then-ok (check x) (check_each check xs) h in
    (f x first, check_each-ok check P f xs rest)

-- A namespace is neither the host's nor that of another container or service.
pub record Isolated (v : String) : Type 0 where
  pub not_host : normal_namespace v ≢ "host"
  pub not_container : has_prefix (normal_namespace v) "container:" ≡ false
  pub not_service : has_prefix (normal_namespace v) "service:" ≡ false

normal-host : is_host_namespace "host" ≡ true
unfolding is_host_namespace normal_namespace
normal-host = refl

decided :
    (x y : Error) (a b c : Bool)
    → ◌≡◌ {A = Result (Unit {0})} (if a then err x else if b || c then err y else ok tt) (ok tt)
    → (a ≡ false) × (b ≡ false) × (c ≡ false)
decided x y a b c h = ground arith

check_compose_namespace-Isolated : (v : String) → check_compose_namespace v ≡ ok tt → Isolated v
unfolding check_compose_namespace
check_compose_namespace-Isolated v h =
    let (host, container, service) =
      decided (plain "service %q: %s: host is not allowed")
        (plain "service %q: %s joining another container/service namespace is not allowed")
        (is_host_namespace (normal_namespace v)) (has_prefix (normal_namespace v) "container:")
        (has_prefix (normal_namespace v) "service:") h in
    record {
      not_host = λ e. apart (sym normal-host ∙ ap is_host_namespace (sym e) ∙ host);
      not_container = container;
      not_service = service;
    }
  where
    apart : ◌≡◌ {A = Bool} true false → ⊥
    apart q = cc

user-apart : (v : String) → is_host_namespace v ≡ false → normal_namespace v ≢ "host"
unfolding is_host_namespace
user-apart v h e =
    apart (normal_namespace v == "host") ((string_eq.beq_iff (normal_namespace v) "host").1 e)
      (has_prefix (normal_namespace v) "host:") h
  where
    apart : (a : Bool) → a ≡ true → (b : Bool) → a || b ≡ false → ⊥
    apart a q b n = ground arith

-- A service that stays in its container.
pub record Confined (prefixes : List String) (comp_dir : String) (node : ServiceNode) : Type 0 where
  pub svc : ServiceConfig
  pub decoded : node.config ≡ ok svc
  pub keys : (ks : List String) → node.keys ≡ some ks → any is_dangerous_key ks ≡ false
  pub image : image_allowed prefixes svc.image ≡ true
  pub unprivileged : svc.privileged ≡ false
  pub caps : All (λ c. is_default_cap c ≡ true) svc.cap_add
  pub no_devices : svc.devices ≡ 0
  pub pid : Isolated svc.pid
  pub ipc : Isolated svc.ipc
  pub network : Isolated svc.network_mode
  pub user : normal_namespace svc.userns_mode ≢ "host"
  pub opts : All (λ so. is_allowed_security_opt so ≡ true) svc.security_opt
  pub volumes : All (λ v. check_compose_volume comp_dir v ≡ ok tt) svc.volumes

keys-safe :
    (keys : Option (List String)) (ks : List String)
    → reject_dangerous_compose_keys keys ≡ ok tt
    → keys ≡ some ks
    → any is_dangerous_key ks ≡ false
unfolding reject_dangerous_compose_keys
keys-safe none ks h e = ground arith
keys-safe (some ks') ks h e =
    subst (λ y. any is_dangerous_key y ≡ false) (some_inj e) (safe (any is_dangerous_key ks') h)
  where
    safe :
        (b : Bool)
        → ◌≡◌ {A = Result (Unit {0})}
            (if b then err (plain "service %q: compose key %q is not allowed") else ok tt)
            (ok tt)
        → b ≡ false
    safe b h = ground arith

    some_inj : some ks' ≡ some ks → ks' ≡ ks
    some_inj q = cc

module _ (prefixes : List String) (comp_dir : String) where
  check_config-Confined :
      (node : ServiceNode) (svc : ServiceConfig)
      → node.config ≡ ok svc
      → reject_dangerous_compose_keys node.keys ≡ ok tt
      → check_config prefixes comp_dir svc ≡ ok tt
      → Confined prefixes comp_dir node
  unfolding check_config
  check_config-Confined node svc e k h =
      let (h1, r1) = then-ok _ _ h in
      let (h2, r2) = then-ok _ _ r1 in
      let (h3, r3) = then-ok _ _ r2 in
      let (h4, r4) = then-ok _ _ r3 in
      let (h5, r5) = then-ok _ _ r4 in
      let (h6, r6) = then-ok _ _ r5 in
      let (h7, r7) = then-ok _ _ r6 in
      let (h8, r8) = then-ok _ _ r7 in
      let (h9, h10) = then-ok _ _ r8 in
      record {
        svc = svc;
        decoded = e;
        keys = λ ks q. keys-safe node.keys ks k q;
        image =
            require-ok (image_allowed prefixes svc.image)
              "service %q: image %q is not from an allowed registry" h1;
        unprivileged =
            negated svc.privileged
              (require-ok (not svc.privileged) "service %q: privileged mode is not allowed" h2);
        caps =
            check_each-ok _ (λ c. is_default_cap c ≡ true)
              (λ c. require-ok (is_default_cap c) "service %q: cap_add %q is not allowed")
              svc.cap_add h3;
        no_devices = none_of svc.devices (
            negated (ltb 0 svc.devices) (
              require-ok (not (ltb 0 svc.devices))
                "service %q: host device passthrough is not allowed" h4));
        pid = check_compose_namespace-Isolated svc.pid h5;
        ipc = check_compose_namespace-Isolated svc.ipc h6;
        network = check_compose_namespace-Isolated svc.network_mode h7;
        user = user-apart svc.userns_mode (
            negated (is_host_namespace svc.userns_mode) (
              require-ok (not (is_host_namespace svc.userns_mode))
                "service %q: userns_mode: host is not allowed" h8));
        opts =
            check_each-ok _ (λ so. is_allowed_security_opt so ≡ true)
              (λ so.
                require-ok (is_allowed_security_opt so)
                  "service %q: security_opt %q is not allowed")
              svc.security_opt h9;
        volumes =
            check_each-ok (check_compose_volume comp_dir)
              (λ v. check_compose_volume comp_dir v ≡ ok tt) (λ v q. q) svc.volumes h10;
      }
    where
      negated : (b : Bool) → not b ≡ true → b ≡ false
      negated b h = ground arith

      none_of : (n : ℕ) → ltb 0 n ≡ false → n ≡ 0
      none_of n h = ground arith

  check_service-Confined :
      (node : ServiceNode)
      → check_service prefixes comp_dir node ≡ ok tt
      → Confined prefixes comp_dir node
  unfolding check_service
  check_service-Confined node h = let (k, r) = then-ok _ _ h in decode node.config refl r
    where
      decode :
          (c : Result ServiceConfig)
          → node.config ≡ c
          → (wrapping "service %q: parse: %w" c >>= check_config prefixes comp_dir) ≡ ok tt
          → Confined prefixes comp_dir node
      decode (ok svc) e r = check_config-Confined node svc e (then-ok _ _ h).0 r
      decode (err x) e r = absurd (failed r)
        where
          failed :
              (wrapping "service %q: parse: %w" (err x) >>= check_config prefixes comp_dir) ≡ ok tt
              → ⊥
          failed q = cc

  -- A compose file that is accepted has been read and decoded, and each of its services is confined: no key that
  -- is refused, an image of an allowed registry, not privileged, no capability beyond the default ones, no
  -- device, no namespace of the host or of another container or service, no security option but
  -- "no-new-privileges", and every volume accepted by the check of volumes.
  pub validate_compose_security-Confined :
      (file : Result (List ServiceNode))
      → validate_compose_security prefixes comp_dir file ≡ ok tt
      → (services : List ServiceNode) × (file ≡ ok services)
        × All (Confined prefixes comp_dir) services
  unfolding validate_compose_security
  validate_compose_security-Confined (ok services) h = (
    services,
    refl,
    check_each-ok (check_service prefixes comp_dir) (Confined prefixes comp_dir)
        check_service-Confined services h,
  )
  validate_compose_security-Confined (err x) h = absurd (failed h)
    where
      failed :
          (wrapping "parse compose: %w" (err x) >>= check_each (check_service prefixes comp_dir))
            ≡ ok tt
          → ⊥
      failed q = cc
