-- ===== src/Db/Users/Updates.antt =====
-- What an UPDATE of one user's row does to the queries that follow.
use mathlib.Core.Option
use apod.Base.{
  ◌≡◌, ◌≢◌, inl, inr, refl, ap, Bool, true, false, String, Option, none, some, List, [], ◌∷◌, ok,
  nat_eq, string_eq, find, any, update_where, arith, Option-cases, find_sound, find-update_where,
  find-update_where_other,
}
use apod.Db.{Env, Stmt, UserRow, Db}
use apod.Db.Users.{User, scan_user, get_user_by_name, is_named, update_user}

module _ (env : Env) (s : Stmt) (name : String) (f : UserRow → UserRow) (d d' : Db) where
  -- An update that succeeds ran on a row of that name.
  pub update_user-found : update_user env s name f d ≡ ok d' → any (is_named name) d.users ≡ true
  unfolding update_user
  update_user-found h = ground arith

  -- It changes the table of users alone.
  pub update_user-frame :
      update_user env s name f d ≡ ok d'
      → d' ≡ record d { users = update_where (is_named name) f d.users }
  unfolding update_user
  update_user-frame h = ground arith

  -- The row is found again, changed.
  pub find-update_user :
      (u : UserRow)
      → update_user env s name f d ≡ ok d'
      → ((v : UserRow) → is_named name v ≡ true → is_named name (f v) ≡ true)
      → find (is_named name) d.users ≡ some u
      → find (is_named name) d'.users ≡ some (f u)
  find-update_user u h keep e =
      rw (update_user-frame h) (find-update_where (is_named name) f d.users u keep e)

  -- The row of any other name is as it was.
  pub find-update_user_other :
      (other : String)
      → update_user env s name f d ≡ ok d'
      → other ≢ name
      → ((v : UserRow) → is_named name v ≡ true → is_named name (f v) ≡ true)
      → find (is_named other) d'.users ≡ find (is_named other) d.users
  find-update_user_other other h n keep = rw (update_user-frame h) (
      find-update_where_other (is_named other) (is_named name) f d.users (λ y e. apart y e)
        (λ y e. apart (f y) (keep y e)))
    where
      apart : (v : UserRow) → is_named name v ≡ true → is_named other v ≡ false
      apart v e = ground (arith, string_eq.beq_iff v.name name, string_eq.beq_iff v.name other)

-- A user that is found by a name bears it, and has a row.
pub get_user_by_name-name :
    (env : Env) (name : String) (d : Db) (u : User)
    → get_user_by_name env name d ≡ ok u
    → (row : UserRow) × (find (is_named name) d.users ≡ some row)
      × (u ≡ scan_user row)
      × (u.name ≡ name)
unfolding get_user_by_name
get_user_by_name-name env name d u h = elim (Option-cases (find (is_named name) d.users)) [
  | inl n ↦ absurd (no_row n)
  | inr (row, e) ↦
      let named = find_sound (is_named name) d.users row e in
      (row, e, ground arith, ground (arith, string_eq.beq_iff row.name name))
]
  where
    no_row : find (is_named name) d.users ≡ none → ⊥
    no_row n = ground arith

-- The user that a query by name scans, if there is one.
abbrev pub profile : String → List UserRow → Option User
profile n rows = Option.map scan_user (find (is_named n) rows)

-- An update of columns that no query for a user scans.
pub profile-update_where :
    (n : String) (q : UserRow → Bool) (f : UserRow → UserRow) (rows : List UserRow)
    → ((u : UserRow) → scan_user (f u) ≡ scan_user u)
    → profile n (update_where q f rows) ≡ profile n rows
unfolding find update_where
profile-update_where n q f [] h = refl
profile-update_where n q f (u ∷ rows) h =
    ground (arith, h u, ap (λ (x : User). x.name) (h u), profile-update_where n q f rows h)

-- The query by name, by what it scans.
pub get_user_by_name_of_profile :
    (env : Env) (n : String) (d : Db) (u : User)
    → env.down Stmt.get_user_by_name ≡ false
    → profile n d.users ≡ some u
    → get_user_by_name env n d ≡ ok u
unfolding get_user_by_name
get_user_by_name_of_profile env n d u w h = ground arith

pub profile_of_get_user_by_name :
    (env : Env) (n : String) (d : Db) (u : User)
    → get_user_by_name env n d ≡ ok u
    → profile n d.users ≡ some u
unfolding get_user_by_name
profile_of_get_user_by_name env n d u h = ground arith

-- The query reads no other table.
pub get_user_by_name-users :
    (env : Env) (n : String) (d d' : Db)
    → d'.users ≡ d.users
    → get_user_by_name env n d' ≡ get_user_by_name env n d
unfolding get_user_by_name
get_user_by_name-users env n d d' h = rw h
