-- ===== src/Sites/Networks/Opening.antt =====
-- The creation and the deletion of a shared network, and the bridge.
use apod.Base.{
  ◌≡◌, sym, subst, ◌∙◌, inl, inr, Bool, true, false, String, List, Result, ok, err, string_eq,
  if◌then◌else◌, any, arith, Bool-cases, invalid, codes,
}
use apod.Base.Effects.{M, ◌>>=◌, ◌>>◌, query, attempt, exec, Preserves, bind-post}
use apod.Db.Sites.{
  SiteDb, NetworkRow, has_name, is_member, create_shared_network, get_shared_network,
  list_network_members, delete_shared_network,
}
use apod.Sites.{World, State, SiteCall, write, read}
use apod.Sites.Networks.{
  is_network_name, disconnect_members, refuse_existing, open_bridge, open_network, find_network,
  close_network,
}
use apod.Sites.Networks.Tenants.{IsOneTenant}
use apod.Sites.Networks.Bridges.{
  is_attached, Disconnects, disconnect_members-attached, disconnect_members-gone,
}
use apod.Sites.Networks.Calls.{disconnect_members-db, find_network-state}
use apod.Sites.Networks.Attached.{
  Bridged, write-Bridged, delete_shared_network-Bridged, list_network_members-listed,
}
use apod.Sites.Networks.Endpoints.{disconnect_members-containers, fewer-Bridged}

module _ (world : World) where
  -- What a network that is new has of members and of endpoints.
  unattached :
      (name : String) (s : State)
      → any (has_name name) s.db.networks ≡ false
      → IsOneTenant s
      → Bridged s
      → (domain : String) → is_attached name domain s ≡ false
  unattached name s new t b domain = elim (Bool-cases (is_attached name domain s)) [
    | inr n ↦ n
    | inl y ↦ absurd (stuck (sym (t.present name domain (b.member name domain y)) ∙ new))
  ]
    where
      stuck : ◌≡◌ {A = Bool} true false → ⊥
      stuck q = cc

  open_bridge-Bridged :
      (name : String) (s : State)
      → ((domain : String) → is_attached name domain s ≡ false)
      → Bridged s
      → Bridged (open_bridge world name s).0
  unfolding open_bridge
  open_bridge-Bridged name s alone b =
      elim (Bool-cases (world.fails (SiteCall.ensure_network name))) [
        | inl broken ↦ rw broken (delete_shared_network-Bridged world.down name s alone b)
        | inr up ↦ rw up b
      ]

  create-Bridged :
      (name owner : String)
      → Preserves Bridged (write (create_shared_network world.down name owner))
  create-Bridged name owner =
      write-Bridged (create_shared_network world.down name owner)
        (λ d d' n m e k. subst (λ x. any (is_member n m) x ≡ true) (sym (same d d' e)) k)
    where
      same :
          (d d' : SiteDb)
          → create_shared_network world.down name owner d ≡ ok d'
          → d'.members ≡ d.members
      same d d' e = unfold create_shared_network in ground arith

  create-new :
      (name owner : String) (s : State)
      → (write (create_shared_network world.down name owner) s).1 ≡ ok tt
      → any (has_name name) s.db.networks ≡ false
  unfolding create_shared_network
  create-new name owner s h = ground arith

  create-links :
      (name owner n m : String) (s : State)
      → is_attached n m (write (create_shared_network world.down name owner) s).0
        ≡ is_attached n m s
  unfolding create_shared_network
  create-links name owner n m s = ground arith

  pub open_network-Bridged :
      (name owner : String) (s : State)
      → IsOneTenant s
      → Bridged s
      → Bridged (open_network world name owner s).0
  unfolding open_network
  open_network-Bridged name owner s t b =
      let created = write (create_shared_network world.down name owner) in
      let made = λ (existing : Result _).
        query (λ (s : State). refuse_existing name existing)
        >> (created >> open_bridge world name) in
      bind-post Bridged
        (query (λ (s : State).
          if is_network_name (codes name)
          then ok tt
          else err (invalid "invalid network name %q: use letters, digits, _ or -")))
        (λ u. attempt (read (get_shared_network world.down name)) >>= made) s b
        (λ u e1.
          bind-post Bridged (attempt (read (get_shared_network world.down name))) made s b
            (λ existing e2.
              bind-post Bridged (query (λ (s : State). refuse_existing name existing))
                (λ u. created >> open_bridge world name) s b
                (λ v e3.
                  bind-post Bridged created (λ u. open_bridge world name) s
                    ((create-Bridged name owner).preserved s b)
                    (λ w e4.
                      open_bridge-Bridged name (created s).0
                        (λ domain.
                          create-links name owner name domain s
                          ∙ unattached name s (create-new name owner s e4) t b domain)
                        ((create-Bridged name owner).preserved s b)))))

  module _ (up : Disconnects world) where
    -- A listed network without its members' endpoints.
    close_from : String → NetworkRow → M State (Unit {0})
    close_from name n = read (list_network_members world.down name) >>= (λ members.
        exec (λ s. ok (disconnect_members world name members s))
        >> write (delete_shared_network world.down name))

    members_left :
        (name : String) (ms : List String) (s : State)
        → list_network_members world.down name s.db ≡ ok ms
        → Bridged s
        → (domain : String) → is_attached name domain (disconnect_members world name ms s) ≡ false
    members_left name ms s e b domain =
        elim (Bool-cases (is_attached name domain (disconnect_members world name ms s))) [
          | inr n ↦ n
          | inl y ↦ disconnect_members-gone world up name ms domain s (
              list_network_members-listed world.down name domain s.db ms e (
                b.member name domain
                  (disconnect_members-attached world up name ms name domain s y)))
        ]

    members-Bridged :
        (name : String) (ms : List String) (s : State)
        → Bridged s
        → Bridged (disconnect_members world name ms s)
    members-Bridged name ms s b =
        fewer-Bridged world s (disconnect_members world name ms s)
          (disconnect_members-containers world name ms s) (disconnect_members-db world name ms s)
          (λ n m a. disconnect_members-attached world up name ms n m s a) b

    close_from-Bridged :
        (name : String) (n : NetworkRow) (s : State) → Bridged s → Bridged (close_from name n s).0
    unfolding close_from
    close_from-Bridged name n s b =
        bind-post Bridged (read (list_network_members world.down name))
          (λ members.
            exec (λ s. ok (disconnect_members world name members s))
            >> write (delete_shared_network world.down name))
          s b
          (λ ms e.
            delete_shared_network-Bridged world.down name (disconnect_members world name ms s)
              (members_left name ms s e b) (members-Bridged name ms s b))

    pub close_network-Bridged : (name : String) → Preserves Bridged (close_network world name)
    unfolding close_network close_from
    close_network-Bridged name = record {
      preserved = λ s b.
          bind-post Bridged (find_network world name) (close_from name) s
            (subst Bridged (sym (find_network-state world name s)) b)
            (λ n h.
              subst (λ y. Bridged (close_from name n y).0) (sym (find_network-state world name s))
                (close_from-Bridged name n s b));
    }
