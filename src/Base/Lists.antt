-- ===== src/Base/Lists.antt =====
-- Lists as tables and sequences: the queries that the database layer makes, and their laws.
use Prim.Native.Nat.{ℕ, zero, suc, ◌+◌, ◌-◌, ◌≤◌, ◌<◌}
use mathlib.Core.Path.{◌≡◌, refl}
use mathlib.Core.Bool.{Bool, true, false, ◌||◌, false≢true}
use mathlib.Core.Logic.{inl, inr}
use mathlib.Core.Option.{Option, none, some}
use mathlib.Core.List.{List, [], ◌∷◌, ◌++◌}
use native.Mathlib.Omega.{arith}
use apod.Base.Tests.{if◌then◌else◌, Bool-cases}

module _ {ℓ} {A : Type ℓ} where
  abbrev pub length : List A → ℕ
  length [] = 0
  length (x ∷ xs) = suc (length xs)

  abbrev pub drop : ℕ → List A → List A
  drop zero xs = xs
  drop (suc n) [] = []
  drop (suc n) (x ∷ xs) = drop n xs

  abbrev pub take : ℕ → List A → List A
  take zero xs = []
  take (suc n) [] = []
  take (suc n) (x ∷ xs) = x ∷ take n xs

  abbrev pub get_or : A → List A → ℕ → A
  get_or d [] i = d
  get_or d (x ∷ xs) zero = x
  get_or d (x ∷ xs) (suc i) = get_or d xs i

  pub length-append : (xs ys : List A) → length (xs ++ ys) ≡ length xs + length ys
  length-append [] ys = omega arith
  length-append (x ∷ xs) ys = omega (arith, length-append xs ys)

  pub length-drop : (n : ℕ) (xs : List A) → length (drop n xs) ≡ length xs - n
  length-drop zero xs = omega arith
  length-drop (suc n) [] = omega arith
  length-drop (suc n) (x ∷ xs) = omega (arith, length-drop n xs)

  -- `SELECT … WHERE p LIMIT 1`.
  unfoldable pub find : (A → Bool) → List A → Option A
  find p [] = none
  find p (x ∷ xs) = if p x then some x else find p xs

  -- Whether a row satisfies `p`.
  unfoldable pub any : (A → Bool) → List A → Bool
  any p [] = false
  any p (x ∷ xs) = p x || any p xs

  -- `UPDATE … WHERE p`.
  unfoldable pub update_where : (A → Bool) → (A → A) → List A → List A
  update_where p f [] = []
  update_where p f (x ∷ xs) = (if p x then f x else x) ∷ update_where p f xs

  -- `DELETE … WHERE p`: what stays.
  unfoldable pub delete_where : (A → Bool) → List A → List A
  delete_where p [] = []
  delete_where p (x ∷ xs) = if p x then delete_where p xs else x ∷ delete_where p xs

  pub find_sound : (p : A → Bool) (xs : List A) (x : A) → find p xs ≡ some x → p x ≡ true
  unfolding find
  find_sound p [] x h = ground arith
  find_sound p (y ∷ xs) x h = ground (arith, find_sound p xs x)

  pub find-none_of_any : (p : A → Bool) (xs : List A) → any p xs ≡ false → find p xs ≡ none
  unfolding find any
  find-none_of_any p [] h = refl
  find-none_of_any p (y ∷ xs) h = ground (arith, find-none_of_any p xs)

  pub any_of_find : (p : A → Bool) (xs : List A) (x : A) → find p xs ≡ some x → any p xs ≡ true
  unfolding find any
  any_of_find p [] x h = ground arith
  any_of_find p (y ∷ xs) x h = ground (arith, any_of_find p xs x)

  pub any-delete_where : (p : A → Bool) (xs : List A) → any p (delete_where p xs) ≡ false
  unfolding any delete_where
  any-delete_where p [] = refl
  any-delete_where p (x ∷ xs) = ground (arith, any-delete_where p xs)

  pub any-delete_where_none :
      (p q : A → Bool) (xs : List A) → any p xs ≡ false → any p (delete_where q xs) ≡ false
  unfolding any delete_where
  any-delete_where_none p q [] h = h
  any-delete_where_none p q (x ∷ xs) h = ground (arith, any-delete_where_none p q xs)

  pub length-update_where :
      (p : A → Bool) (f : A → A) (xs : List A) → length (update_where p f xs) ≡ length xs
  unfolding update_where
  length-update_where p f [] = refl
  length-update_where p f (x ∷ xs) = ground (arith, length-update_where p f xs)

  pub length-delete_where : (p : A → Bool) (xs : List A) → length (delete_where p xs) ≤ length xs
  unfolding delete_where
  length-delete_where p [] = omega arith
  length-delete_where p (x ∷ xs) = ground (arith, length-delete_where p xs)

  pub length-delete_where-any :
      (p : A → Bool) (xs : List A) → any p xs ≡ true → length (delete_where p xs) < length xs
  unfolding any delete_where
  length-delete_where-any p [] h = ground arith
  length-delete_where-any p (x ∷ xs) h =
      ground (arith, length-delete_where-any p xs, length-delete_where p xs)

  -- A query finds in the rest what it found before, if no deleted row answers it.
  pub find-delete_where :
      (p q : A → Bool) (xs : List A)
      → ((x : A) → p x ≡ true → q x ≡ false)
      → find p (delete_where q xs) ≡ find p xs
  unfolding find delete_where
  find-delete_where p q [] h = refl
  find-delete_where p q (x ∷ xs) h = ground (arith, h x, find-delete_where p q xs h)

  -- A query that every hit of which is deleted finds nothing.
  pub find-delete_where-none :
      (p q : A → Bool) (xs : List A)
      → ((x : A) → p x ≡ true → q x ≡ true)
      → find p (delete_where q xs) ≡ none
  unfolding find delete_where
  find-delete_where-none p q [] h = refl
  find-delete_where-none p q (x ∷ xs) h = ground (arith, h x, find-delete_where-none p q xs h)

  -- A query that an update does not change finds the updated row.
  pub find-update_where :
      (p : A → Bool) (f : A → A) (xs : List A) (x : A)
      → ((y : A) → p y ≡ true → p (f y) ≡ true)
      → find p xs ≡ some x
      → find p (update_where p f xs) ≡ some (f x)
  unfolding find update_where
  find-update_where p f [] x h e = ground arith
  find-update_where p f (y ∷ xs) x h e = ground (arith, h y, find-update_where p f xs x h)

  -- An update of other rows changes no hit.
  pub find-update_where_other :
      (p q : A → Bool) (f : A → A) (xs : List A)
      → ((y : A) → q y ≡ true → p y ≡ false)
      → ((y : A) → q y ≡ true → p (f y) ≡ false)
      → find p (update_where q f xs) ≡ find p xs
  unfolding find update_where
  find-update_where_other p q f [] h k = refl
  find-update_where_other p q f (y ∷ xs) h k =
      ground (arith, h y, k y, find-update_where_other p q f xs h k)

  pub find-append_none :
      (p : A → Bool) (xs ys : List A) → find p xs ≡ none → find p (xs ++ ys) ≡ find p ys
  unfolding find
  find-append_none p [] ys h = refl
  find-append_none p (x ∷ xs) ys h = ground (arith, find-append_none p xs ys)

  pub find-append_some :
      (p : A → Bool) (xs ys : List A) (x : A) → find p xs ≡ some x → find p (xs ++ ys) ≡ some x
  unfolding find
  find-append_some p [] ys x h = ground arith
  find-append_some p (y ∷ xs) ys x h = ground (arith, find-append_some p xs ys x)

module _ {ℓ κ} {A : Type ℓ} (P : A → Type κ) where
  -- Every element satisfies `P`.
  abbrev pub All : List A → Type κ
  All [] = Unit
  All (x ∷ xs) = P x × All xs

module _ {ℓ} {A : Type ℓ} where
  pub find_of_any : (p : A → Bool) (xs : List A) → any p xs ≡ true → (x : A) × (find p xs ≡ some x)
  unfolding find any
  find_of_any p [] h = absurd (false≢true h)
  find_of_any p (y ∷ xs) h = elim (Bool-cases (p y)) [
    | inl hit ↦ (y, rw hit)
    | inr miss ↦ let (x, e) = find_of_any p xs (rw miss at h) in (x, rw (miss, find) e)
  ]

  -- What is found does not satisfy a test that no row satisfies.
  pub find-not_any :
      (p q : A → Bool) (xs : List A) (x : A) → any q xs ≡ false → find p xs ≡ some x → q x ≡ false
  unfolding find any
  find-not_any p q [] x n e = ground arith
  find-not_any p q (y ∷ xs) x n e = ground (arith, find-not_any p q xs x)

  -- A stricter test finds no row either.
  pub find-none_of_stricter :
      (p q : A → Bool) (xs : List A)
      → ((x : A) → p x ≡ true → q x ≡ true)
      → any q xs ≡ false
      → find p xs ≡ none
  unfolding find any
  find-none_of_stricter p q [] h n = refl
  find-none_of_stricter p q (x ∷ xs) h n = ground (arith, h x, find-none_of_stricter p q xs h)

  -- A hit that a deletion leaves is still the first hit.
  pub find-delete_where_kept :
      (p q : A → Bool) (xs : List A) (x : A)
      → find p xs ≡ some x
      → q x ≡ false
      → find p (delete_where q xs) ≡ some x
  unfolding find delete_where
  find-delete_where_kept p q [] x e k = ground arith
  find-delete_where_kept p q (y ∷ xs) x e k = ground (arith, find-delete_where_kept p q xs x)

-- How many elements pass a test.
unfoldable pub count {ℓ} : {A : Type ℓ} → (A → Bool) → List A → ℕ
count p [] = 0
count p (x ∷ xs) = (if p x then 1 else 0) + count p xs
