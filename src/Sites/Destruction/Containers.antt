-- ===== src/Sites/Destruction/Containers.antt =====
-- The removal of a site's containers.
use apod.Base.{
  ◌≡◌, refl, inl, inr, Bool, true, false, not, ◌&&◌, String, List, [], ◌∷◌, ok, nat_eq, string_eq,
  any, delete_where, update_where, arith, Bool-cases, any-delete_where,
}
use apod.Base.Rows.{delete_where-delete_where}
use apod.Sites.{World, State, SiteCall, SiteContainer, of_site, site_containers, is_that}
use apod.Sites.Frame.{Kept, Kept-refl, Kept-trans, Keeps, RowsKept-refl}
use apod.Sites.Destruction.{without, stopped, remove_each, remove_containers}

-- The containers of a site that are not on a list.
abbrev pub left_out : String → List SiteContainer → SiteContainer → Bool
left_out domain ids c = of_site domain c && not (any (λ x. is_that x c) ids)

left_out-more :
    (domain : String) (x : SiteContainer) (ids cs : List SiteContainer)
    → any (left_out domain ids) cs ≡ false
    → any (left_out domain (x ∷ ids)) cs ≡ false
unfolding any
left_out-more domain x ids [] h = refl
left_out-more domain x ids (c ∷ cs) h = ground (arith, left_out-more domain x ids cs)

pub left_out-filter :
    (domain : String) (cs : List SiteContainer)
    → any (left_out domain (delete_where (λ c. not (of_site domain c)) cs)) cs ≡ false
unfolding any delete_where
left_out-filter domain [] = refl
left_out-filter domain (c ∷ cs) = ground (
  arith,
  string_eq.beq_iff c.id c.id,
  string_eq.beq_iff c.site c.site,
  left_out-filter domain cs,
  left_out-more domain c (delete_where (λ c. not (of_site domain c)) cs) cs,
)

left_out-step :
    (domain : String) (c : SiteContainer) (ids cs : List SiteContainer)
    → any (left_out domain (c ∷ ids)) cs ≡ false
    → any (left_out domain ids) (delete_where (is_that c) cs) ≡ false
unfolding any delete_where
left_out-step domain c ids [] h = refl
left_out-step domain c ids (x ∷ cs) h = ground (arith, left_out-step domain c ids cs)

left_out-nil :
    (domain : String) (cs : List SiteContainer)
    → any (left_out domain []) cs ≡ false
    → any (of_site domain) cs ≡ false
unfolding any
left_out-nil domain [] h = refl
left_out-nil domain (x ∷ cs) h = ground (arith, left_out-nil domain cs)

halted :
    (domain : String) (q : SiteContainer → Bool)
    → ((x : SiteContainer) → q x ≡ true → of_site domain x ≡ true)
    → (cs : List SiteContainer)
    → delete_where (of_site domain) (update_where q (λ x. record x { running = false }) cs)
      ≡ delete_where (of_site domain) cs
unfolding delete_where update_where
halted domain q h [] = refl
halted domain q h (c ∷ cs) = ground (arith, h c, halted domain q h cs)

module _ (world : World) (domain : String) (purge : Bool) where
  remove_each-gone :
      (cs : List SiteContainer) (s : State)
      → any (left_out domain cs) s.containers ≡ false
      → (remove_each world domain purge cs s).1 ≡ ok tt
      → any (of_site domain) (remove_each world domain purge cs s).0.containers ≡ false
  unfolding remove_each without
  remove_each-gone [] s h r = left_out-nil domain s.containers h
  remove_each-gone (c ∷ cs) s h r = ground (
    arith,
    left_out-step domain c cs s.containers,
    remove_each-gone cs (without world domain purge c s),
  )

  -- Containers of other sites.
  elsewhere :
      (c : SiteContainer)
      → of_site domain c ≡ true
      → (x : SiteContainer) → is_that c x ≡ true
      → of_site domain x ≡ true
  elsewhere c h x e = ground (
    arith,
    string_eq.beq_iff x.site c.site,
    string_eq.beq_iff x.site domain,
    string_eq.beq_iff c.site domain,
  )

  without-Kept :
      (c : SiteContainer)
      → of_site domain c ≡ true
      → (s : State) → Kept domain s (without world domain purge c s)
  unfolding without
  without-Kept c h s = record {
    rows = RowsKept-refl domain s.db;
    containers =
        delete_where-delete_where (of_site domain) (is_that c) s.containers (elsewhere c h);
  }

  stopped-Kept :
      (c : SiteContainer)
      → of_site domain c ≡ true
      → (s : State) → Kept domain s (stopped world domain purge c s)
  unfolding stopped
  stopped-Kept c h s = record {
    rows = RowsKept-refl domain s.db;
    containers = ground (arith, halted domain (is_that c) (elsewhere c h) s.containers);
  }

  remove_each-Kept :
      (cs : List SiteContainer)
      → any (λ c. not (of_site domain c)) cs ≡ false
      → (s : State) → Kept domain s (remove_each world domain purge cs s).0
  unfolding remove_each any
  remove_each-Kept [] h s = Kept-refl domain s
  remove_each-Kept (c ∷ cs) h s = elim (Bool-cases (world.fails (SiteCall.remove_container c.id))) [
    | inl f ↦ rw f (stopped-Kept c (mine h) s)
    | inr f ↦ rw f (
        Kept-trans domain s (without world domain purge c s)
          (remove_each world domain purge cs (without world domain purge c s)).0
          (without-Kept c (mine h) s)
          (remove_each-Kept cs (later h) (without world domain purge c s)))
  ]
    where
      mine : any (λ c. not (of_site domain c)) (c ∷ cs) ≡ false → of_site domain c ≡ true
      mine h = ground arith

      later :
          any (λ c. not (of_site domain c)) (c ∷ cs) ≡ false
          → any (λ c. not (of_site domain c)) cs ≡ false
      later h = ground arith

  pub remove_containers-Keeps : Keeps domain (remove_containers world domain purge)
  unfolding remove_containers
  remove_containers-Keeps = record { kept = λ s. go s }
    where
      go : (s : State) → Kept domain s (remove_containers world domain purge s).0
      go s = elim (Bool-cases (world.fails (SiteCall.list_containers domain))) [
        | inl f ↦ rw f (Kept-refl domain s)
        | inr f ↦ rw f (
            remove_each-Kept (site_containers domain s)
              (any-delete_where (λ c. not (of_site domain c)) s.containers) s)
      ]

  pub remove_containers-gone :
      (s : State)
      → (remove_containers world domain purge s).1 ≡ ok tt
      → any (of_site domain) (remove_containers world domain purge s).0.containers ≡ false
  unfolding remove_containers
  remove_containers-gone s h =
      ground
        (arith, remove_each-gone (site_containers domain s) s (left_out-filter domain s.containers))

  remove_each-db :
      (cs : List SiteContainer) (s : State) → (remove_each world domain purge cs s).0.db ≡ s.db
  unfolding remove_each without stopped
  remove_each-db [] s = refl
  remove_each-db (c ∷ cs) s = ground (arith, remove_each-db cs (without world domain purge c s))

  pub remove_containers-db : (s : State) → (remove_containers world domain purge s).0.db ≡ s.db
  unfolding remove_containers
  remove_containers-db s = ground (arith, remove_each-db (site_containers domain s) s)
