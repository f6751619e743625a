-- ===== src/Sites/Power/Running.antt =====
-- The loops over a site's containers reach every one of them.
use apod.Base.{
  ◌≡◌, refl, Bool, true, false, not, ◌&&◌, String, List, [], ◌∷◌, ok, Error, if◌then◌else◌, any,
  update_where, arith,
}
use apod.Base.Rows.{any-update_where_none}
use apod.Sites.{World, State, SiteCall, SiteContainer, of_site, site_containers, is_that}
use apod.Sites.Destruction.Containers.{left_out, left_out-filter}
use apod.Sites.Power.{set_running, set_all_running, switch_each, switch_containers, switch_compose}

-- A container of the site that is not as it should be.
abbrev pub astray : Bool → String → SiteContainer → Bool
astray on domain c = of_site domain c && not (if on then c.running else not c.running)

-- One that the loop has still to reach.
abbrev ahead : Bool → String → List SiteContainer → SiteContainer → Bool
ahead on domain ids c = left_out domain ids c && astray on domain c

ahead-nil :
    (on : Bool) (domain : String) (cs : List SiteContainer)
    → any (ahead on domain []) cs ≡ false
    → any (astray on domain) cs ≡ false
unfolding any
ahead-nil on domain [] h = refl
ahead-nil on domain (x ∷ cs) h = ground (arith, ahead-nil on domain cs)

-- A switched container is not astray.
ahead-switched :
    (on : Bool) (domain : String) (ids : List SiteContainer) (x : SiteContainer)
    → ahead on domain ids (record x { running = on }) ≡ false
ahead-switched true domain ids x = ground arith
ahead-switched false domain ids x = ground arith

ahead-other :
    (on : Bool) (domain : String) (c : SiteContainer) (ids : List SiteContainer) (x : SiteContainer)
    → is_that c x ≡ false
    → ahead on domain (c ∷ ids) x ≡ false
    → ahead on domain ids x ≡ false
unfolding any
ahead-other on domain c ids x n h = rw (any, n) at h

ahead-step :
    (on : Bool) (domain : String) (c : SiteContainer) (ids cs : List SiteContainer)
    → any (ahead on domain (c ∷ ids)) cs ≡ false
    → any (ahead on domain ids) (update_where (is_that c) (λ x. record x { running = on }) cs)
      ≡ false
ahead-step on domain c ids cs =
    any-update_where_none (ahead on domain ids) (ahead on domain (c ∷ ids)) (is_that c)
      (λ x. record x { running = on }) (λ x e. ahead-switched on domain ids x)
      (ahead-other on domain c ids) cs

ahead-left_out :
    (on : Bool) (domain : String) (ids cs : List SiteContainer)
    → any (left_out domain ids) cs ≡ false
    → any (ahead on domain ids) cs ≡ false
unfolding any
ahead-left_out on domain ids [] h = refl
ahead-left_out on domain ids (x ∷ cs) h = ground (arith, ahead-left_out on domain ids cs)

set_all-astray :
    (on : Bool) (domain : String) (cs : List SiteContainer)
    → any (astray on domain) (update_where (of_site domain) (λ x. record x { running = on }) cs)
      ≡ false
unfolding any update_where
set_all-astray on domain [] = refl
set_all-astray on domain (x ∷ cs) = ground (arith, set_all-astray on domain cs)

module _ (world : World) (on : Bool) (call : String → SiteCall) (domain : String) where
  switch_each-astray :
      (x : Error) (cs : List SiteContainer) (s : State)
      → any (ahead on domain cs) s.containers ≡ false
      → (switch_each world on call x cs s).1 ≡ ok tt
      → any (astray on domain) (switch_each world on call x cs s).0.containers ≡ false
  unfolding switch_each set_running
  switch_each-astray x [] s h r = ahead-nil on domain s.containers h
  switch_each-astray x (c ∷ cs) s h r =
      ground (
        arith,
        ahead-step on domain c cs s.containers,
        switch_each-astray x cs (set_running on c s),
      )

  pub switch_containers-astray :
      (x : Error) (s : State)
      → (switch_containers world on call x domain s).1 ≡ ok tt
      → any (astray on domain) (switch_containers world on call x domain s).0.containers ≡ false
  unfolding switch_containers
  switch_containers-astray x s h = ground (
    arith,
    switch_each-astray x (site_containers domain s) s (
        ahead-left_out on domain (site_containers domain s) s.containers
          (left_out-filter domain s.containers)),
  )

  pub switch_compose-astray :
      (s : State)
      → (switch_compose world on call domain s).1 ≡ ok tt
      → any (astray on domain) (switch_compose world on call domain s).0.containers ≡ false
  unfolding switch_compose set_all_running
  switch_compose-astray s h = ground (arith, set_all-astray on domain s.containers)
