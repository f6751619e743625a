-- ===== src/Sites/Networks/Bridges.antt =====
-- Which sites have a container on the bridge of a shared network.
use apod.Base.{
  ◌≡◌, sym, subst, ◌∙◌, inl, inr, ◌⊎◌, Bool, true, false, not, ◌&&◌, ◌||◌, String, List, [], ◌∷◌,
  ◌==◌, string_eq, any, delete_where, arith, Bool-cases,
}
use apod.Base.Rows.{any-of_delete_where, any-delete_where_inside, any-append}
use apod.Sites.{World, State, SiteCall, SiteContainer, Link, of_site, site_containers}
use apod.Sites.Networks.{
  is_link, connect_each, connect_site, leaves, disconnect_site, disconnect_all, disconnect_members,
}

-- The container of an identifier, of a site.
abbrev pub is_at : String → String → SiteContainer → Bool
is_at id domain c = c.id == id && c.site == domain

-- An endpoint on a network of a container of a site.
abbrev pub joins : List SiteContainer → String → String → Link → Bool
joins containers network domain l =
    l.network == network && any (is_at l.container domain) containers

-- Whether a container of the site is on the network's bridge.
abbrev pub is_attached : String → String → State → Bool
is_attached network domain s = any (joins s.containers network domain) s.links

-- No identifier is one of two sites' containers.
abbrev pub HasOneSite : List SiteContainer → Type 0
HasOneSite containers =
    (id a b : String)
    → any (is_at id a) containers ≡ true
    → any (is_at id b) containers ≡ true
    → a ≡ b

-- A container of a site, among all.
site_container-at :
    (q : SiteContainer → Bool) (domain : String) (cs : List SiteContainer)
    → any q (delete_where (λ c. not (of_site domain c)) cs) ≡ true
    → (c : SiteContainer) × (q c ≡ true) × (any (is_at c.id domain) cs ≡ true)
unfolding any delete_where
site_container-at q domain [] h = absurd (stuck h)
  where
    stuck : ◌≡◌ {A = Bool} false true → ⊥
    stuck e = cc
site_container-at q domain (c ∷ cs) h = elim (Bool-cases (of_site domain c && q c)) [
  | inl here ↦ (c, ground arith, ground (arith, string_eq.beq_iff c.id c.id))
  | inr other ↦
      let (x, k, m) = site_container-at q domain cs (ground arith) in (x, k, ground (arith, m))
]

-- A container of the site is among the site's.
site_container-found :
    (id domain : String) (cs : List SiteContainer)
    → any (is_at id domain) cs ≡ true
    → any (λ (c : SiteContainer). c.id == id) (delete_where (λ c. not (of_site domain c)) cs) ≡ true
unfolding any delete_where
site_container-found id domain [] h = h
site_container-found id domain (c ∷ cs) h = ground (arith, site_container-found id domain cs)

stays : {a b : Bool} → (a ≡ true → b ≡ true) → b ≡ false → a ≡ false
stays {a} {b} f e = ground arith

module _ (world : World) where
  -- What the loop attaches is of the network and one of the given containers.
  connect_each-joins :
      (name network domain : String) (all cs : List SiteContainer) (links : List Link)
      → any (joins all network domain) (connect_each world name cs links) ≡ true
      → (any (joins all network domain) links ≡ true)
        ⊎ (((name == network) ≡ true)
            × (any (λ (c : SiteContainer). any (is_at c.id domain) all) cs ≡ true))
  unfolding connect_each any
  connect_each-joins name network domain all [] links h = inl h
  connect_each-joins name network domain all (c ∷ cs) links h =
      elim (connect_each-joins name network domain all cs _ h) [
        | inr (same, found) ↦ inr (same, ground (arith, found))
        | inl old ↦
            elim (Bool-cases (
              c.running
              && not (world.fails (SiteCall.connect_network name c.id))
              && not (any (is_link name c.id) links))) [
                | inr skipped ↦ inl (rw skipped at old)
                | inl added ↦ last (
                    sym (
                      any-append (joins all network domain) links
                        (record { network = name; container = c.id }))
                    ∙ (rw added at old))
              ]
      ]
    where
      last :
          any (joins all network domain) links || (name == network && any (is_at c.id domain) all)
            ≡ true
          → (any (joins all network domain) links ≡ true)
            ⊎ (((name == network) ≡ true)
                × (any (λ (c : SiteContainer). any (is_at c.id domain) all) (c ∷ cs) ≡ true))
      last e = elim (Bool-cases (any (joins all network domain) links)) [
        | inl old ↦ inl old
        | inr new ↦ inr (ground arith, ground arith)
      ]

  -- A site's joining attaches no other site, and no site to another network.
  pub connect_site-attached :
      (name site network domain : String) (s : State)
      → HasOneSite s.containers
      → is_attached network domain (connect_site world name site s) ≡ true
      → (is_attached network domain s ≡ true) ⊎ ((name ≡ network) × (site ≡ domain))
  unfolding connect_site
  connect_site-attached name site network domain s one h =
      elim (Bool-cases (
        world.fails (SiteCall.ensure_network name)
        || world.fails (SiteCall.list_containers site))) [
          | inl broken ↦ inl (rw broken at h)
          | inr up ↦
              elim (connect_each-joins name network domain s.containers (site_containers site s)
                s.links (rw up at h)) [
                  | inl old ↦ inl old
                  | inr (same, found) ↦
                      let (c, other, own) =
                        site_container-at
                          (λ (c : SiteContainer). any (is_at c.id domain) s.containers) site
                          s.containers found in
                      inr ((string_eq.beq_iff name network).0 same, one c.id site domain own other)
                ]
        ]

  -- A site that leaves a network attaches nothing.
  pub disconnect_site-attached :
      (name site network domain : String) (s : State)
      → is_attached network domain (disconnect_site world name site s) ≡ true
      → is_attached network domain s ≡ true
  unfolding disconnect_site
  disconnect_site-attached name site network domain s h = ground (
    arith,
    any-of_delete_where (joins s.containers network domain)
        (leaves world name (site_containers site s)) s.links,
  )

  -- Calls of Docker by which a site leaves a bridge do not fail.
  pub record Disconnects : Type 0 where
    pub listed : (domain : String) → world.fails (SiteCall.list_containers domain) ≡ false
    pub removed :
        (network container : String)
        → world.fails (SiteCall.disconnect_network network container) ≡ false

  module _ (up : Disconnects) where
    leaves-all :
        (name site : String) (s : State) (l : Link)
        → joins s.containers name site l ≡ true
        → leaves world name (site_containers site s) l ≡ true
    unfolding leaves
    leaves-all name site s l h =
        ground
          (arith, site_container-found l.container site s.containers, up.removed name l.container)

    pub disconnect_site-gone :
        (name site : String) (s : State)
        → is_attached name site (disconnect_site world name site s) ≡ false
    unfolding disconnect_site
    disconnect_site-gone name site s = rw (up.listed site) (
        any-delete_where_inside (joins s.containers name site)
          (leaves world name (site_containers site s)) s.links (leaves-all name site s))

    -- The loops, over networks and over sites.
    pub disconnect_all-attached :
        (site : String) (ns : List String) (network domain : String) (s : State)
        → is_attached network domain (disconnect_all world site ns s) ≡ true
        → is_attached network domain s ≡ true
    unfolding disconnect_all
    disconnect_all-attached site [] network domain s h = h
    disconnect_all-attached site (n ∷ ns) network domain s h =
        disconnect_site-attached n site network domain s
          (disconnect_all-attached site ns network domain (disconnect_site world n site s) h)

    pub disconnect_all-gone :
        (site : String) (ns : List String) (network : String) (s : State)
        → any (λ n. n == network) ns ≡ true
        → is_attached network site (disconnect_all world site ns s) ≡ false
    unfolding disconnect_all any
    disconnect_all-gone site [] network s h = absurd (stuck h)
      where
        stuck : ◌≡◌ {A = Bool} false true → ⊥
        stuck e = cc
    disconnect_all-gone site (n ∷ ns) network s h = elim (Bool-cases (n == network)) [
      | inr other ↦
          disconnect_all-gone site ns network (disconnect_site world n site s) (rw other at h)
      | inl same ↦
          stays (disconnect_all-attached site ns network site (disconnect_site world n site s)) (
            subst (λ m. is_attached m site (disconnect_site world n site s) ≡ false)
              ((string_eq.beq_iff n network).0 same) (disconnect_site-gone n site s))
    ]

    pub disconnect_members-attached :
        (name : String) (ms : List String) (network domain : String) (s : State)
        → is_attached network domain (disconnect_members world name ms s) ≡ true
        → is_attached network domain s ≡ true
    unfolding disconnect_members
    disconnect_members-attached name [] network domain s h = h
    disconnect_members-attached name (m ∷ ms) network domain s h =
        disconnect_site-attached name m network domain s
          (disconnect_members-attached name ms network domain (disconnect_site world name m s) h)

    pub disconnect_members-gone :
        (name : String) (ms : List String) (domain : String) (s : State)
        → any (λ m. m == domain) ms ≡ true
        → is_attached name domain (disconnect_members world name ms s) ≡ false
    unfolding disconnect_members any
    disconnect_members-gone name [] domain s h = absurd (stuck h)
      where
        stuck : ◌≡◌ {A = Bool} false true → ⊥
        stuck e = cc
    disconnect_members-gone name (m ∷ ms) domain s h = elim (Bool-cases (m == domain)) [
      | inr other ↦
          disconnect_members-gone name ms domain (disconnect_site world name m s) (rw other at h)
      | inl same ↦
          stays (disconnect_members-attached name ms name domain (disconnect_site world name m s)) (
            subst (λ x. is_attached name x (disconnect_site world name m s) ≡ false)
              ((string_eq.beq_iff m domain).0 same) (disconnect_site-gone name m s))
    ]
