-- ===== src/Sites/Networks/Endpoints.antt =====
-- What the endpoints on the bridges do to a state in which only members have one.
use apod.Base.{
  ◌≡◌, refl, sym, subst, ◌∙◌, inl, inr, true, String, List, [], ◌∷◌, string_eq, any, arith,
}
use apod.Base.Effects.{}
use apod.Db.Sites.{SiteDb, is_member}
use apod.Sites.{World, State}
use apod.Sites.Networks.{connect_site, disconnect_site, disconnect_all, disconnect_members}
use apod.Sites.Networks.Bridges.{HasOneSite, is_attached, connect_site-attached}
use apod.Sites.Networks.Calls.{connect_site-db}
use apod.Sites.Networks.Attached.{Bridged}

module _ (world : World) where
  pub connect_site-containers :
      (name domain : String) (s : State)
      → (connect_site world name domain s).containers ≡ s.containers
  unfolding connect_site
  connect_site-containers name domain s = ground arith

  pub disconnect_site-containers :
      (name domain : String) (s : State)
      → (disconnect_site world name domain s).containers ≡ s.containers
  unfolding disconnect_site
  disconnect_site-containers name domain s = ground arith

  pub disconnect_all-containers :
      (domain : String) (ns : List String) (s : State)
      → (disconnect_all world domain ns s).containers ≡ s.containers
  unfolding disconnect_all
  disconnect_all-containers domain [] s = refl
  disconnect_all-containers domain (n ∷ ns) s =
      disconnect_all-containers domain ns (disconnect_site world n domain s)
      ∙ disconnect_site-containers n domain s

  pub disconnect_members-containers :
      (name : String) (ms : List String) (s : State)
      → (disconnect_members world name ms s).containers ≡ s.containers
  unfolding disconnect_members
  disconnect_members-containers name [] s = refl
  disconnect_members-containers name (m ∷ ms) s =
      disconnect_members-containers name ms (disconnect_site world name m s)
      ∙ disconnect_site-containers name m s

  -- Fewer endpoints, with the containers and the tables as they were.
  pub fewer-Bridged :
      (s s' : State)
      → s'.containers ≡ s.containers
      → s'.db ≡ s.db
      → ((n m : String) → is_attached n m s' ≡ true → is_attached n m s ≡ true)
      → Bridged s
      → Bridged s'
  fewer-Bridged s s' containers tables sub b = record {
    one_site = subst HasOneSite (sym containers) b.one_site;
    member = λ n m a.
        subst (λ (d : SiteDb). any (is_member n m) d.members ≡ true) (sym tables)
          (b.member n m (sub n m a));
  }

  pub connect_site-Bridged :
      (name domain : String) (s : State)
      → any (is_member name domain) s.db.members ≡ true
      → Bridged s
      → Bridged (connect_site world name domain s)
  connect_site-Bridged name domain s in_it b = record {
    one_site = subst HasOneSite (sym (connect_site-containers name domain s)) b.one_site;
    member = λ n m a.
        subst (λ (d : SiteDb). any (is_member n m) d.members ≡ true)
          (sym (connect_site-db world name domain s))
          (elim (connect_site-attached world name domain n m s b.one_site a) [
            | inl old ↦ b.member n m old
            | inr (same, this) ↦
                subst (λ x. any (is_member x m) s.db.members ≡ true) same
                  (subst (λ y. any (is_member name y) s.db.members ≡ true) this in_it)
          ]);
  }
