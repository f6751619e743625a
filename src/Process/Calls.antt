-- ===== src/Process/Calls.antt =====
-- What each call does to the container it names, and to the others.
use apod.Base.{
  ◌≡◌, ◌≢◌, inl, inr, refl, sym, subst, ◌∙◌, Bool, true, false, String, Option, some, [], ◌∷◌, ok,
  err, Error, Result-cases, ◌==◌, nat_eq, string_eq, find, any, update_where, arith, Bool-cases,
  find_sound, any-delete_where, find-delete_where, find-update_where, find-update_where_other,
  find-append_some, find_of_any,
}
use apod.Process.{
  Container, Docker, Call, is_container, start_container, stop_container, remove_container,
  create_container,
}

-- The container of a name, and that it runs.
abbrev pub lookup : String → Docker → Option Container
lookup name d = find (is_container name) d

abbrev pub Runs : String → Docker → Type 0
Runs name d = lookup name d ≡ some (record { name = name; running = true })

abbrev pub exists_in : String → Docker → Bool
exists_in name d = any (is_container name) d

same_name :
    (m n : String) → m ≢ n → (c : Container) → is_container n c ≡ true → is_container m c ≡ false
same_name m n h c e = ground (arith, string_eq.beq_iff c.name n, string_eq.beq_iff c.name m)

update-lookup_other :
    (m n : String) (b : Bool) (d : Docker)
    → m ≢ n
    → lookup m (update_where (is_container n) (λ c. record c { running = b }) d) ≡ lookup m d
update-lookup_other m n b d h =
    find-update_where_other (is_container m) (is_container n) (λ c. record c { running = b }) d
      (λ c e. same_name m n h c e) (λ c e. same_name m n h c e)

pub update-exists :
    (m n : String) (b : Bool) (d : Docker)
    → exists_in m (update_where (is_container n) (λ c. record c { running = b }) d) ≡ exists_in m d
unfolding any update_where
update-exists m n b [] = refl
update-exists m n b (c ∷ d) = ground (arith, update-exists m n b d)

pub lookup-name : (m : String) (d : Docker) (c : Container) → lookup m d ≡ some c → c.name ≡ m
lookup-name m d c h = (string_eq.beq_iff c.name m).0 (find_sound (is_container m) d c h)

module _ (fails : Call → Bool) where
  pub start-Runs :
      (n : String) (d : Docker)
      → (start_container fails n d).1 ≡ ok tt
      → Runs n (start_container fails n d).0
  unfolding start_container
  start-Runs n d h =
      let (c, e) = find_of_any (is_container n) d (ground arith) in
      let named = lookup-name n d c e in
      let updated =
        find-update_where (is_container n) (λ x. record x { running = true }) d c (λ y k. k) e in
      ground (arith, updated, named)

  pub start-fails :
      (n : String) (d : Docker) (x : Error)
      → (start_container fails n d).1 ≡ err x
      → (start_container fails n d).0 ≡ d
  unfolding start_container
  start-fails n d x h = ground arith

  pub start-lookup_other :
      (m n : String) (d : Docker) → m ≢ n → lookup m (start_container fails n d).0 ≡ lookup m d
  unfolding start_container
  start-lookup_other m n d h = ground (arith, update-lookup_other m n true d h)

  pub start-keeps : (m n : String) (d : Docker) → Runs m d → Runs m (start_container fails n d).0
  start-keeps m n d h = elim (Bool-cases (m == n)) [
    | inl same ↦ elim (Result-cases (start_container fails n d).1) [
      | inl (x, e) ↦ subst (Runs m) (sym (start-fails n d x e)) h
      | inr (u, e) ↦
          subst (λ k. Runs k (start_container fails n d).0) (sym ((string_eq.beq_iff m n).0 same))
            (start-Runs n d e)
    ]
    | inr other ↦ start-lookup_other m n d (λ e. absurd (clash e other)) ∙ h
  ]
    where
      clash : m ≡ n → (m == n) ≡ false → ⊥
      clash e o = ground (arith, string_eq.beq_iff m n)

  pub start-exists :
      (m n : String) (d : Docker) → exists_in m (start_container fails n d).0 ≡ exists_in m d
  unfolding start_container
  start-exists m n d = ground (arith, update-exists m n true d)

  pub stop-exists :
      (m n : String) (d : Docker) → exists_in m (stop_container fails n d) ≡ exists_in m d
  unfolding stop_container
  stop-exists m n d = ground (arith, update-exists m n false d)

  pub stop-lookup_other :
      (m n : String) (d : Docker) → m ≢ n → lookup m (stop_container fails n d) ≡ lookup m d
  unfolding stop_container
  stop-lookup_other m n d h = ground (arith, update-lookup_other m n false d h)

  pub remove-lookup_other :
      (m n : String) (d : Docker) → m ≢ n → lookup m (remove_container fails n d).0 ≡ lookup m d
  unfolding remove_container
  remove-lookup_other m n d h =
      ground (arith, find-delete_where (is_container m) (is_container n) d (λ c e. same_sym c e))
    where
      same_sym : (c : Container) → is_container m c ≡ true → is_container n c ≡ false
      same_sym c e = ground (arith, string_eq.beq_iff c.name n, string_eq.beq_iff c.name m)

  pub remove-gone :
      (n : String) (d : Docker)
      → (remove_container fails n d).1 ≡ ok tt
      → exists_in n (remove_container fails n d).0 ≡ false
  unfolding remove_container
  remove-gone n d h = ground (arith, any-delete_where (is_container n) d)

  pub create-fails :
      (n : String) (d : Docker) (x : Error)
      → (create_container fails n d).1 ≡ err x
      → (create_container fails n d).0 ≡ d
  unfolding create_container
  create-fails n d x h = ground arith

  -- A created container is behind the others, which are found as before.
  pub create-keeps :
      (m n : String) (d : Docker) (c : Container)
      → lookup m d ≡ some c
      → lookup m (create_container fails n d).0 ≡ some c
  unfolding create_container
  create-keeps m n d c h =
      ground
        (arith, find-append_some (is_container m) d (record { name = n; running = false } ∷ []) c h)
