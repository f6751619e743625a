-- ===== src/Sites/Networks/Attached.antt =====
-- Only members have a container on a shared network's bridge, as long as the calls that leave it do not fail.
use apod.Base.{
  ◌≡◌, sym, subst, inl, inr, Bool, true, false, not, String, List, [], ◌∷◌, Result, ok,
  Result-cases, ◌==◌, string_eq, any, map, delete_where, arith, Bool-cases,
}
use apod.Base.Effects.{Preserves}
use apod.Base.Rows.{any-append}
use apod.Db.{SiteStmt}
use apod.Db.Sites.{
  SiteDb, MemberRow, is_member, member_domain, list_network_members, list_site_networks,
  delete_shared_network, add_network_member,
}
use apod.Sites.{State, statement, write, try_write}
use apod.Sites.Networks.Bridges.{HasOneSite, is_attached}
use apod.Sites.Networks.Calls.{}

-- A site of which a container is on the bridge of a network is a member of it.
pub record Bridged (s : State) : Type 0 where
  pub one_site : HasOneSite s.containers
  pub member :
      (network domain : String)
      → is_attached network domain s ≡ true
      → any (is_member network domain) s.db.members ≡ true

pub never {ℓ} : {A : Type ℓ} {b : Bool} → b ≡ true → b ≡ false → A
never {b = b} h k = absurd (stuck h k)
  where
    stuck : b ≡ true → b ≡ false → ⊥
    stuck h k = cc

-- What stays of the members when the rows that a test selects are deleted.
pub any-kept :
    (p q : MemberRow → Bool) (xs : List MemberRow)
    → ((x : MemberRow) → p x ≡ true → q x ≡ false)
    → any p xs ≡ true
    → any p (delete_where q xs) ≡ true
unfolding any delete_where
any-kept p q [] h k = k
any-kept p q (x ∷ xs) h k = ground (arith, h x, any-kept p q xs h)

-- A write that keeps the members.
pub write-Bridged :
    (w : SiteDb → Result SiteDb)
    → ((d d' : SiteDb) (network domain : String)
        → w d ≡ ok d'
        → any (is_member network domain) d.members ≡ true
        → any (is_member network domain) d'.members ≡ true)
    → Preserves Bridged (write w)
write-Bridged w keep = record { preserved = go }
  where
    go : (s : State) → Bridged s → Bridged (write w s).0
    go s b = elim (Result-cases (w s.db)) [
      | inl (x, e) ↦ rw (e, statement) b
      | inr (d, e) ↦
          rw (e, statement)
            (record { one_site = b.one_site; member = λ n m a. keep s.db d n m e (b.member n m a) })
    ]

-- The deletion of one membership, or of all of a site, after the site has left the bridges.
pub removal-Bridged :
    (q : MemberRow → Bool) (w : SiteDb → Result SiteDb) (s : State)
    → ((d : SiteDb) → w s.db ≡ ok d → d.members ≡ delete_where q s.db.members)
    → ((n m : String)
        → is_attached n m s ≡ true
        → (r : MemberRow) → is_member n m r ≡ true
        → q r ≡ false)
    → Bridged s
    → Bridged (try_write w s).0
removal-Bridged q w s left spared b = elim (Result-cases (w s.db)) [
  | inl (x, e) ↦ rw (e, statement) b
  | inr (d, e) ↦
      rw (e, statement)
        (record {
          one_site = b.one_site;
          member = λ n m a.
              subst (λ x. any (is_member n m) x ≡ true) (sym (left d e))
                (any-kept (is_member n m) q s.db.members (spared n m a) (b.member n m a));
        })
]

module _ (down : SiteStmt → Bool) where
  -- The deletion of a network that no site is attached to.
  pub delete_shared_network-Bridged :
      (name : String) (s : State)
      → ((domain : String) → is_attached name domain s ≡ false)
      → Bridged s
      → Bridged (write (delete_shared_network down name) s).0
  unfolding delete_shared_network
  delete_shared_network-Bridged name s alone b =
      elim (Result-cases (delete_shared_network down name s.db)) [
        | inl (x, e) ↦ rw (e, statement) b
        | inr (d, e) ↦
            rw (e, statement)
              (record {
                one_site = b.one_site;
                member = λ n m a. elim (Bool-cases (n == name)) [
                  | inl same ↦ never a (
                      subst (λ x. is_attached x m s ≡ false)
                        (sym ((string_eq.beq_iff n name).0 same)) (alone m))
                  | inr other ↦
                      subst (λ x. any (is_member n m) x ≡ true) (sym (left d e))
                        (any-kept (is_member n m) (λ (r : MemberRow). r.network == name)
                          s.db.members (spared n m other) (b.member n m a))
                ];
              })
      ]
    where
      left :
          (d : SiteDb)
          → delete_shared_network down name s.db ≡ ok d
          → d.members ≡ delete_where (λ (r : MemberRow). r.network == name) s.db.members
      left d e = ground arith

      spared :
          (n m : String)
          → (n == name) ≡ false
          → (r : MemberRow) → is_member n m r ≡ true
          → (r.network == name) ≡ false
      spared n m other r h = ground (
        arith,
        string_eq.beq_iff r.network n,
        string_eq.beq_iff r.network name,
        string_eq.beq_iff n name,
      )

  pub add_network_member-member :
      (name domain : String) (d d' : SiteDb)
      → add_network_member down name domain d ≡ ok d'
      → any (is_member name domain) d'.members ≡ true
  unfolding add_network_member
  add_network_member-member name domain d d' h = ground (
    arith,
    any-append (is_member name domain) d.members (record { network = name; site_domain = domain }),
    string_eq.beq_iff name name,
    string_eq.beq_iff domain domain,
  )

  pub add_network_member-keeps :
      (name domain : String) (d d' : SiteDb) (n m : String)
      → add_network_member down name domain d ≡ ok d'
      → any (is_member n m) d.members ≡ true
      → any (is_member n m) d'.members ≡ true
  unfolding add_network_member
  add_network_member-keeps name domain d d' n m h k = ground (
    arith,
    any-append (is_member n m) d.members (record { network = name; site_domain = domain }),
  )

-- The sites of a network, and the networks of a site, as they are listed.
any-sites :
    (name domain : String) (xs : List MemberRow)
    → any (is_member name domain) xs ≡ true
    → any
        (λ d. d == domain)
        (map
          (λ (m : MemberRow). m.site_domain)
          (delete_where (λ (m : MemberRow). not (m.network == name)) xs))
      ≡ true
unfolding any delete_where
any-sites name domain [] h = h
any-sites name domain (x ∷ xs) h = ground (arith, any-sites name domain xs)

any-networks :
    (name domain : String) (xs : List MemberRow)
    → any (is_member name domain) xs ≡ true
    → any
        (λ n. n == name)
        (map (λ (m : MemberRow). m.network) (delete_where (λ m. not (member_domain domain m)) xs))
      ≡ true
unfolding any delete_where
any-networks name domain [] h = h
any-networks name domain (x ∷ xs) h = ground (arith, any-networks name domain xs)

module _ (down : SiteStmt → Bool) where
  pub list_network_members-listed :
      (name domain : String) (d : SiteDb) (ms : List String)
      → list_network_members down name d ≡ ok ms
      → any (is_member name domain) d.members ≡ true
      → any (λ m. m == domain) ms ≡ true
  unfolding list_network_members
  list_network_members-listed name domain d ms h k = ground (arith, any-sites name domain d.members)

  pub list_site_networks-listed :
      (name domain : String) (d : SiteDb) (ns : List String)
      → list_site_networks down domain d ≡ ok ns
      → any (is_member name domain) d.members ≡ true
      → any (λ n. n == name) ns ≡ true
  unfolding list_site_networks
  list_site_networks-listed name domain d ns h k =
      ground (arith, any-networks name domain d.members)
