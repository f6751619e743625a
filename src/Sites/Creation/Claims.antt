-- ===== src/Sites/Creation/Claims.antt =====
-- The row that a claim of a domain leaves.
use apod.Base.{
  ◌≡◌, refl, sym, ap, subst, ◌∙◌, inl, inr, true, false, Option, some, List, [], ◌∷◌, ◌++◌, Result,
  ok, err, Error, Result-cases, nat_eq, string_eq, find, any, arith, Bool-cases, wrapping,
  find-append_none, find-none_of_any,
}
use apod.Db.{SiteStmt}
use apod.Db.Sites.{SiteDb, SiteRow, has_domain, create_site, get_site, delete_site, delete_others}
use apod.Sites.{World, State, write, try_write, statement}
use apod.Sites.Creation.{CreateSiteOpts, row_of, reclaimable, reclaim, claim, or_reclaim}

module _ (world : World) (o : CreateSiteOpts) where
  abbrev pub mine : List SiteRow → Option SiteRow
  mine sites = find (has_domain o.domain) sites

  -- A row that is as the caller asked.
  abbrev pub IsAsked : SiteRow → Type 0
  IsAsked r = (r.owner ≡ o.owner) × (r.driver ≡ o.driver)

  pub record Claimed (s s' : State) : Type 0 where
    pub row : SiteRow
    pub found : mine s'.db.sites ≡ some row
    pub asked : IsAsked row
    pub before : (r : SiteRow) → mine s.db.sites ≡ some r → reclaimable o r ≡ true

  fresh : SiteDb → SiteRow
  fresh d = record (row_of o) { id = d.next_site_id; status = "creating" }

  created :
      (d d' : SiteDb)
      → create_site world.down (row_of o) d ≡ ok d'
      → (mine d'.sites ≡ some (fresh d)) × (any (has_domain o.domain) d.sites ≡ false)
  unfolding create_site fresh find
  created d d' h =
      let new = free h in
      (
        ap (find (has_domain o.domain)) (sites h)
            ∙ find-append_none (has_domain o.domain) d.sites (fresh d ∷ [])
                (find-none_of_any (has_domain o.domain) d.sites new)
            ∙ itself,
        new,
      )
    where
      free : create_site world.down (row_of o) d ≡ ok d' → any (has_domain o.domain) d.sites ≡ false
      free h = ground arith

      sites : create_site world.down (row_of o) d ≡ ok d' → d'.sites ≡ d.sites ++ fresh d ∷ []
      sites h = ground arith

      itself : find (has_domain o.domain) (fresh d ∷ []) ≡ some (fresh d)
      itself = rw ((string_eq.beq_iff o.domain o.domain).1 refl, find) refl

  looked_up :
      (d : SiteDb) (r : SiteRow) → get_site world.down o.domain d ≡ ok r → mine d.sites ≡ some r
  unfolding get_site
  looked_up d r h = ground arith

  -- The row after a failed creation of the same owner made room.
  unfoldable pub room : State → State
  room s =
      (try_write (delete_others world.down SiteStmt.delete_operations "operations" o.domain)
        (try_write (delete_site world.down o.domain) s).0).0

  pub reclaim-lem :
      (x : Error) (existing : SiteRow) (s : State)
      → reclaimable o existing ≡ true
      → reclaim world o x (ok existing) s ≡ (
        (write (create_site world.down (row_of o)) (room s)).0,
        wrapping "create site record: %w" (write (create_site world.down (row_of o)) (room s)).1,
      )
  unfolding reclaim room
  reclaim-lem x existing s h = rw h refl

  written :
      (s : State)
      → (write (create_site world.down (row_of o)) s).1 ≡ ok tt
      → (d : SiteDb) × (create_site world.down (row_of o) s.db ≡ ok d)
        × ((write (create_site world.down (row_of o)) s).0 ≡ record s { db = d })
  written s h = elim (Result-cases (create_site world.down (row_of o) s.db)) [
    | inr (d, e) ↦ (d, e, rw (e, statement) refl)
    | inl (x, e) ↦ absurd (stuck x (rw (e, statement) at h))
  ]
    where
      stuck : (x : Error) → ◌≡◌ {A = Result (Unit {0})} (err x) (ok tt) → ⊥
      stuck x q = cc

  -- A row that a creation wrote.
  of_write :
      (s s0 : State)
      → (write (create_site world.down (row_of o)) s).1 ≡ ok tt
      → ((r : SiteRow) → mine s0.db.sites ≡ some r → reclaimable o r ≡ true)
      → Claimed s0 (write (create_site world.down (row_of o)) s).0
  unfolding fresh
  of_write s s0 h before =
      let (d, e, same) = written s h in
      subst (Claimed s0) (sym same) (record {
        row = fresh s.db;
        found = (created s.db d e).0;
        asked = asked s.db;
        before = before;
      })
    where
      asked : (d : SiteDb) → IsAsked (fresh d)
      asked d = (refl, refl)

  unwrapped : (w : Result (Unit {0})) → wrapping "create site record: %w" w ≡ ok tt → w ≡ ok tt
  unwrapped (ok u) e = refl
  unwrapped (err x) e = cc

  pub unwritten :
      (s : State) (x : Error)
      → (write (create_site world.down (row_of o)) s).1 ≡ err x
      → (write (create_site world.down (row_of o)) s).0 ≡ s
  unwritten s x h = elim (Result-cases (create_site world.down (row_of o) s.db)) [
    | inl (y, e) ↦ rw (e, statement) refl
    | inr (d, e) ↦ absurd (stuck (rw (e, statement) at h))
  ]
    where
      stuck : ◌≡◌ {A = Result (Unit {0})} (ok tt) (err x) → ⊥
      stuck q = cc

  abbrev pub wrote : State → State × Result (Unit {0})
  wrote s = write (create_site world.down (row_of o)) s

  pub claim-lem :
      (s : State)
      → claim world o s
        ≡ or_reclaim world o (wrote s).1 (get_site world.down o.domain (wrote s).0.db) (wrote s).0
  unfolding claim
  claim-lem s = refl

  reclaim-Claimed :
      (x : Error) (r : Result SiteRow) (s : State)
      → r ≡ get_site world.down o.domain s.db
      → (reclaim world o x r s).1 ≡ ok tt
      → Claimed s (reclaim world o x r s).0
  unfolding reclaim
  reclaim-Claimed x (err y) s known h = absurd (refused h)
    where
      refused : (reclaim world o x (err y) s).1 ≡ ok tt → ⊥
      refused h = ground arith
  reclaim-Claimed x (ok existing) s known h = elim (Bool-cases (reclaimable o existing)) [
    | inr other ↦ absurd (refused other)
    | inl may ↦
        let q = reclaim-lem x existing s may in
        let h1 = ap (λ (x : State × Result (Unit {0})). x.1) (sym q) ∙ h in
        subst (λ (x : State × Result (Unit {0})). Claimed s x.0) (sym q)
          (of_write (room s) s (unwrapped (wrote (room s)).1 h1) (λ r m. only r m may))
  ]
    where
      refused : reclaimable o existing ≡ false → ⊥
      refused other = ground arith

      only :
          (r : SiteRow)
          → mine s.db.sites ≡ some r
          → reclaimable o existing ≡ true
          → reclaimable o r ≡ true
      only r m may =
          subst (λ y. reclaimable o y ≡ true)
            (inj r (sym (looked_up s.db existing (sym known)) ∙ m)) may
        where
          inj : (r : SiteRow) → ◌≡◌ {A = Option SiteRow} (some existing) (some r) → existing ≡ r
          inj r q = cc

  or_reclaim-Claimed :
      (w : Result (Unit {0})) (s s1 : State)
      → w ≡ (wrote s).1
      → s1 ≡ (wrote s).0
      → (or_reclaim world o w (get_site world.down o.domain s1.db) s1).1 ≡ ok tt
      → Claimed s (or_reclaim world o w (get_site world.down o.domain s1.db) s1).0
  unfolding or_reclaim
  or_reclaim-Claimed (ok u) s s1 e same h =
      subst (Claimed s) (sym same) (of_write s s (sym e) (λ r m. absurd (none_before r m)))
    where
      none_before : (r : SiteRow) → mine s.db.sites ≡ some r → ⊥
      none_before r m =
          let (d, w, q) = written s (sym e) in let free = (created s.db d w).1 in taken r m free
        where
          taken :
              (r : SiteRow)
              → mine s.db.sites ≡ some r
              → any (has_domain o.domain) s.db.sites ≡ false
              → ⊥
          taken r m free = ground (arith, find-none_of_any (has_domain o.domain) s.db.sites)
  or_reclaim-Claimed (err x) s s1 e same h =
      let kept : s1 ≡ s = same ∙ unwritten s x (sym e) in
      subst (λ y. Claimed y (reclaim world o x (get_site world.down o.domain s1.db) s1).0) kept
        (reclaim-Claimed x (get_site world.down o.domain s1.db) s1 refl h)

  pub claim-Claimed : (s : State) → (claim world o s).1 ≡ ok tt → Claimed s (claim world o s).0
  claim-Claimed s h =
      subst (λ (x : State × Result (Unit {0})). Claimed s x.0) (sym (claim-lem s))
        (or_reclaim-Claimed (wrote s).1 s (wrote s).0 refl refl
          (ap (λ (x : State × Result (Unit {0})). x.1) (sym (claim-lem s)) ∙ h))
