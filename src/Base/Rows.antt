-- ===== src/Base/Rows.antt =====
-- What updates, deletions and insertions in a table leave of the rows that a query does not select.
use mathlib.Core.Path.{◌≡◌, refl}
use mathlib.Core.Bool.{Bool, true, false, ◌||◌}
use mathlib.Core.Option.{some}
use mathlib.Core.List.{List, [], ◌∷◌, ◌++◌}
use native.Mathlib.Omega.{arith}
use apod.Base.Lists.{any, find, update_where, delete_where}

module _ {ℓ} {A : Type ℓ} where
  pub delete_where-append :
      (p : A → Bool) (xs : List A) (x : A)
      → p x ≡ true
      → delete_where p (xs ++ x ∷ []) ≡ delete_where p xs
  unfolding delete_where
  delete_where-append p [] x h = ground arith
  delete_where-append p (y ∷ xs) x h = ground (arith, delete_where-append p xs x)

  pub delete_where-update_where :
      (p : A → Bool) (f : A → A) (xs : List A)
      → ((x : A) → p x ≡ true → p (f x) ≡ true)
      → delete_where p (update_where p f xs) ≡ delete_where p xs
  unfolding delete_where update_where
  delete_where-update_where p f [] h = refl
  delete_where-update_where p f (x ∷ xs) h = ground (arith, h x, delete_where-update_where p f xs h)

  -- A deletion of fewer rows first changes nothing.
  pub delete_where-delete_where :
      (p q : A → Bool) (xs : List A)
      → ((x : A) → q x ≡ true → p x ≡ true)
      → delete_where p (delete_where q xs) ≡ delete_where p xs
  unfolding delete_where
  delete_where-delete_where p q [] h = refl
  delete_where-delete_where p q (x ∷ xs) h = ground (arith, h x, delete_where-delete_where p q xs h)

  pub any-append_false :
      (p : A → Bool) (xs : List A) (x : A)
      → any p xs ≡ false
      → p x ≡ false
      → any p (xs ++ x ∷ []) ≡ false
  unfolding any
  any-append_false p [] x h k = ground arith
  any-append_false p (y ∷ xs) x h k = ground (arith, any-append_false p xs x)

  pub any-of_delete_where :
      (p q : A → Bool) (xs : List A) → any p (delete_where q xs) ≡ true → any p xs ≡ true
  unfolding any delete_where
  any-of_delete_where p q [] h = h
  any-of_delete_where p q (x ∷ xs) h = ground (arith, any-of_delete_where p q xs)

  -- Nothing that is left passes a test under which everything is deleted.
  pub any-delete_where_inside :
      (p q : A → Bool) (xs : List A)
      → ((x : A) → p x ≡ true → q x ≡ true)
      → any p (delete_where q xs) ≡ false
  unfolding any delete_where
  any-delete_where_inside p q [] h = refl
  any-delete_where_inside p q (x ∷ xs) h = ground (arith, h x, any-delete_where_inside p q xs h)

  pub any-append : (p : A → Bool) (xs : List A) (x : A) → any p (xs ++ x ∷ []) ≡ any p xs || p x
  unfolding any
  any-append p [] x = ground arith
  any-append p (y ∷ xs) x = ground (arith, any-append p xs x)

  pub any-find : (p : A → Bool) (xs : List A) (x : A) → any p xs ≡ false → find p xs ≡ some x → ⊥
  unfolding any find
  any-find p [] x h e = ground arith
  any-find p (y ∷ xs) x h e = ground (arith, any-find p xs x)

  -- An update of other rows leaves what a test finds.
  pub any-update_where_other :
      (p q : A → Bool) (f : A → A) (xs : List A)
      → ((x : A) → p (f x) ≡ p x)
      → any p (update_where q f xs) ≡ any p xs
  unfolding any update_where
  any-update_where_other p q f [] h = refl
  any-update_where_other p q f (x ∷ xs) h = ground (arith, h x, any-update_where_other p q f xs h)

  -- A test that the updated rows fail, and the others if they failed another test.
  pub any-update_where_none :
      (p q u : A → Bool) (f : A → A)
      → ((x : A) → u x ≡ true → p (f x) ≡ false)
      → ((x : A) → u x ≡ false → q x ≡ false → p x ≡ false)
      → (xs : List A) → any q xs ≡ false
      → any p (update_where u f xs) ≡ false
  unfolding any update_where
  any-update_where_none p q u f h k [] n = refl
  any-update_where_none p q u f h k (x ∷ xs) n =
      ground (arith, h x, k x, any-update_where_none p q u f h k xs)

  -- The deletion of the row that was just added.
  pub delete_where-append_new :
      (p : A → Bool) (xs : List A) (x : A)
      → any p xs ≡ false
      → p x ≡ true
      → delete_where p (xs ++ x ∷ []) ≡ xs
  unfolding any delete_where
  delete_where-append_new p [] x h k = ground arith
  delete_where-append_new p (y ∷ xs) x h k = ground (arith, delete_where-append_new p xs x)

  pub any-stricter :
      (p q : A → Bool) (xs : List A)
      → ((x : A) → p x ≡ true → q x ≡ true)
      → any q xs ≡ false
      → any p xs ≡ false
  unfolding any
  any-stricter p q [] h n = refl
  any-stricter p q (x ∷ xs) h n = ground (arith, h x, any-stricter p q xs h)
