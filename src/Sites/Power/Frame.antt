-- ===== src/Sites/Power/Frame.antt =====
-- Starting and stopping a site leaves the other sites as they are.
use apod.Base.{
  ◌≡◌, refl, inl, inr, Bool, true, false, not, ◌||◌, String, List, [], ◌∷◌, Result, ok, err, Error,
  nat_eq, string_eq, any, delete_where, update_where, arith, Bool-cases, wrap, plain,
  any-delete_where,
}
use apod.Base.Effects.{◌>>◌, attempt}
use apod.Db.Sites.{SiteRow, get_site, update_site_status, list_site_networks}
use apod.Sites.{
  World, State, SiteCall, SiteContainer, of_site, site_containers, is_that, is_compose_site, write,
  read, SiteEngine,
}
use apod.Sites.Networks.{connect_site, connect_all, join_each, reconnect}
use apod.Sites.Frame.{
  Kept, Kept-refl, Kept-trans, Keeps, RowsKept-refl, with_lock-Kept, query-Keeps, then-Keeps,
  bind-Keeps, attempt-Keeps, write-Keeps, update_site_status-IsLocal,
}
use apod.Sites.Power.{
  set_running, set_all_running, switch_each, switch_containers, switch_compose, power_on, power_off,
  start_site_locked, stop_site_locked, start_site, stop_site, restart_site,
}

module _ (world : World) (domain : String) where
  halted :
      (on : Bool) (q : SiteContainer → Bool)
      → ((x : SiteContainer) → q x ≡ true → of_site domain x ≡ true)
      → (cs : List SiteContainer)
      → delete_where (of_site domain) (update_where q (λ x. record x { running = on }) cs)
        ≡ delete_where (of_site domain) cs
  unfolding delete_where update_where
  halted on q h [] = refl
  halted on q h (c ∷ cs) = ground (arith, h c, halted on q h cs)

  elsewhere :
      (c : SiteContainer)
      → of_site domain c ≡ true
      → (x : SiteContainer) → is_that c x ≡ true
      → of_site domain x ≡ true
  elsewhere c h x e = ground (
    arith,
    string_eq.beq_iff x.site c.site,
    string_eq.beq_iff x.site domain,
    string_eq.beq_iff c.site domain,
  )

  switch_each-Kept :
      (on : Bool) (call : String → SiteCall) (x : Error) (cs : List SiteContainer)
      → any (λ c. not (of_site domain c)) cs ≡ false
      → (s : State) → Kept domain s (switch_each world on call x cs s).0
  unfolding switch_each set_running any
  switch_each-Kept on call x [] h s = Kept-refl domain s
  switch_each-Kept on call x (c ∷ cs) h s = elim (Bool-cases (world.fails (call c.id))) [
    | inl f ↦ rw f (Kept-refl domain s)
    | inr f ↦ rw f (
        Kept-trans domain s (set_running on c s)
          (switch_each world on call x cs (set_running on c s)).0
          (record {
            rows = RowsKept-refl domain s.db;
            containers = halted on (is_that c) (elsewhere c (mine h)) s.containers;
          })
          (switch_each-Kept on call x cs (later h) (set_running on c s)))
  ]
    where
      mine : any (λ c. not (of_site domain c)) (c ∷ cs) ≡ false → of_site domain c ≡ true
      mine h = ground arith

      later :
          any (λ c. not (of_site domain c)) (c ∷ cs) ≡ false
          → any (λ c. not (of_site domain c)) cs ≡ false
      later h = ground arith

  switch_containers-Keeps :
      (on : Bool) (call : String → SiteCall) (x : Error)
      → Keeps domain (switch_containers world on call x domain)
  unfolding switch_containers
  switch_containers-Keeps on call x = record { kept = λ s. go s }
    where
      go : (s : State) → Kept domain s (switch_containers world on call x domain s).0
      go s = elim (Bool-cases (world.fails (SiteCall.list_containers domain))) [
        | inl f ↦ rw f (Kept-refl domain s)
        | inr f ↦ rw f (
            switch_each-Kept on call x (site_containers domain s)
              (any-delete_where (λ c. not (of_site domain c)) s.containers) s)
      ]

  switch_compose-Keeps :
      (on : Bool) (call : String → SiteCall) → Keeps domain (switch_compose world on call domain)
  unfolding switch_compose set_all_running
  switch_compose-Keeps on call = record { kept = λ s. go s }
    where
      go : (s : State) → Kept domain s (switch_compose world on call domain s).0
      go s = elim (Bool-cases (world.fails (call domain))) [
        | inl f ↦ rw f (Kept-refl domain s)
        | inr f ↦ rw f (record {
          rows = RowsKept-refl domain s.db;
          containers = halted on (of_site domain) (λ x e. e) s.containers;
        })
      ]

  connect_all-Kept : (ns : List String) (s : State) → Kept domain s (connect_all world domain ns s)
  unfolding connect_all connect_site
  connect_all-Kept [] s = Kept-refl domain s
  connect_all-Kept (n ∷ ns) s =
      Kept-trans domain s (connect_site world n domain s)
        (connect_all world domain ns (connect_site world n domain s)) one
        (connect_all-Kept ns (connect_site world n domain s))
    where
      one : Kept domain s (connect_site world n domain s)
      one =
          elim (Bool-cases (
            world.fails (SiteCall.ensure_network n)
            || world.fails (SiteCall.list_containers domain))) [
              | inl f ↦ rw f (Kept-refl domain s)
              | inr f ↦ rw f (record { rows = RowsKept-refl domain s.db; containers = refl })
            ]

  join_each-Keeps : (r : Result (List String)) → Keeps domain (join_each world domain r)
  unfolding join_each
  join_each-Keeps (err x) = query-Keeps domain (λ s. ok tt)
  join_each-Keeps (ok ns) = record { kept = connect_all-Kept ns }

  reconnect-Keeps : Keeps domain (reconnect world domain)
  unfolding reconnect
  reconnect-Keeps =
      bind-Keeps domain
        (attempt-Keeps domain (query-Keeps domain (λ s. list_site_networks world.down domain s.db)))
        join_each-Keeps

  status-Keeps :
      (status : String) → Keeps domain (write (update_site_status world.down domain status))
  status-Keeps status =
      write-Keeps domain (update_site_status world.down domain status)
        (update_site_status-IsLocal world.down domain status)

  power_on-Keeps : (site : Result SiteRow) → Keeps domain (power_on world site domain)
  unfolding power_on
  power_on-Keeps site = elim (Bool-cases (is_compose_site world site)) [
    | inl c ↦ rw c (switch_compose-Keeps true SiteCall.compose_start)
    | inr c ↦ rw c (
        switch_containers-Keeps true SiteCall.start_container
          (wrap "start container: %w" (plain "docker")))
  ]

  power_off-Keeps : (site : Result SiteRow) → Keeps domain (power_off world site domain)
  unfolding power_off
  power_off-Keeps site = elim (Bool-cases (is_compose_site world site)) [
    | inl c ↦ rw c (switch_compose-Keeps false SiteCall.compose_stop)
    | inr c ↦ rw c (
        switch_containers-Keeps false SiteCall.stop_container
          (wrap "stop container: %w" (plain "docker")))
  ]

  looked_up : Keeps domain (attempt (read (get_site world.down domain)))
  looked_up = attempt-Keeps domain (query-Keeps domain (λ s. get_site world.down domain s.db))

  start_site_locked-Keeps : Keeps domain (start_site_locked world domain)
  unfolding start_site_locked
  start_site_locked-Keeps = bind-Keeps domain looked_up (λ site.
      then-Keeps domain (power_on-Keeps site)
        (then-Keeps domain reconnect-Keeps (status-Keeps "running")))

  stop_site_locked-Keeps : Keeps domain (stop_site_locked world domain)
  unfolding stop_site_locked
  stop_site_locked-Keeps =
      bind-Keeps domain looked_up
        (λ site. then-Keeps domain (power_off-Keeps site) (status-Keeps "stopped"))

  -- Starting, stopping and restarting a site leaves the containers of the other sites and every row about them
  -- as before, however it ends.
  pub power-Kept :
      (e : SiteEngine)
      → Kept domain e.state (start_site world domain e).0.state
        × Kept domain e.state (stop_site world domain e).0.state
        × Kept domain e.state (restart_site world domain e).0.state
  unfolding start_site stop_site restart_site
  power-Kept e = (
    with_lock-Kept domain world.now "starting" (start_site_locked world domain) e
        start_site_locked-Keeps,
    with_lock-Kept domain world.now "stopping" (stop_site_locked world domain) e
        stop_site_locked-Keeps,
    with_lock-Kept domain world.now "restarting"
        (stop_site_locked world domain >> start_site_locked world domain) e
        (then-Keeps domain stop_site_locked-Keeps start_site_locked-Keeps),
  )
