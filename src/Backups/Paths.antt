-- ===== src/Backups/Paths.antt =====
-- A backup is read below the directory of the site's owner, and only for its own site.
use apod.Base.{
  ℕ, ◌≡◌, refl, sym, subst, inl, inr, Bool, true, false, not, String, ◌<>◌, List, Result, ok, err,
  Error, Result-cases, plain, ◌>>=◌, ◌==◌, nat_eq, string_eq, if◌then◌else◌, has_prefix,
  has_prefix-more, has_prefix-append, Bool-cases,
}
use apod.Db.Sites.{SiteRow}
use apod.Compose.Paths.{Clean, clean-Clean, clean-rooted}
use apod.Backups.{
  Backup, get_backup, join_paths, backup_dir, owner_of, path_of_backup, get_backup_path,
}

backup_dir-rooted :
    (data_dir owner : String)
    → has_prefix data_dir "/" ≡ true
    → has_prefix (backup_dir data_dir owner) "/" ≡ true
unfolding backup_dir join_paths
backup_dir-rooted data_dir owner absolute = elim (Bool-cases (owner == "")) [
  | inl e ↦ rw e (
      clean-rooted (data_dir <> ("/" <> "backups"))
        (has_prefix-more data_dir "/" ("/" <> "backups") absolute))
  | inr e ↦ rw e (
      clean-rooted ("/home/" <> (owner <> "/backups"))
        (has_prefix-more "/home/" "/" (owner <> "/backups") rooted))
]
  where
    rooted : has_prefix "/home/" "/" ≡ true
    rooted = has_prefix-append "/" "home/"

-- What a path that is answered is about.
pub record Located (data_dir : String) (backups : Result (List Backup)) (site : Result SiteRow)
    (domain : String) (id : ℕ) (path : String) : Type 0 where
  pub backup : Backup
  pub found : get_backup id backups ≡ ok backup
  pub own : backup.site_domain ≡ domain
  pub stored : path ≡ join_paths (backup_dir data_dir (owner_of site)) backup.path
  pub below : has_prefix path (backup_dir data_dir (owner_of site) <> "/") ≡ true
  pub clean : Clean path

module _ (data_dir : String) (absolute : has_prefix data_dir "/" ≡ true)
    (backups : Result (List Backup)) (site : Result SiteRow) (domain : String) (id : ℕ) where
  checks :
      (a b : Bool) (x y : Error) (r path : String)
      → ◌≡◌ {A = Result String} (if not a then err x else if not b then err y else ok r) (ok path)
      → (a ≡ true) × (b ≡ true) × (r ≡ path)
  checks true true x y r path h = (refl, refl, ok_inj h)
    where
      ok_inj : ◌≡◌ {A = Result String} (ok r) (ok path) → r ≡ path
      ok_inj q = cc
  checks true false x y r path h = absurd (stuck h)
    where
      stuck : ◌≡◌ {A = Result String} (err y) (ok path) → ⊥
      stuck q = cc
  checks false b x y r path h = absurd (stuck h)
    where
      stuck : ◌≡◌ {A = Result String} (err x) (ok path) → ⊥
      stuck q = cc

  of_backup :
      (b : Backup) (path : String)
      → get_backup id backups ≡ ok b
      → path_of_backup (backup_dir data_dir (owner_of site)) domain b ≡ ok path
      → Located data_dir backups site domain id path
  unfolding path_of_backup join_paths
  of_backup b path e h =
      let dir : String = backup_dir data_dir (owner_of site) in
      let (own, below, same) =
        checks (b.site_domain == domain) (has_prefix (join_paths dir b.path) (dir <> "/"))
          (plain "backup does not belong to this site") (plain "invalid backup path")
          (join_paths dir b.path) path h in
      record {
        backup = b;
        found = e;
        own = (string_eq.beq_iff b.site_domain domain).0 own;
        stored = sym same;
        below = subst (λ x. has_prefix x (dir <> "/") ≡ true) same below;
        clean = subst Clean same (
            clean-Clean (dir <> ("/" <> b.path)) (
              has_prefix-more dir "/" ("/" <> b.path)
                (backup_dir-rooted data_dir (owner_of site) absolute)));
      }

  -- A path that is answered is the one stored with the backup of that number, which is a backup of the given
  -- domain, taken in the backup directory of the owner of the site, with every `.` and `..` resolved, and it is
  -- below that directory, if the data directory is absolute. So neither the file of a backup that is recorded
  -- for another domain nor a file elsewhere is answered.
  pub get_backup_path-Located :
      (path : String)
      → get_backup_path data_dir backups site domain id ≡ ok path
      → Located data_dir backups site domain id path
  unfolding get_backup_path
  get_backup_path-Located path h = elim (Result-cases (get_backup id backups)) [
    | inr (b, e) ↦ of_backup b path e (rw (e, ◌>>=◌) at h)
    | inl (x, e) ↦ absurd (stuck x (rw (e, ◌>>=◌) at h))
  ]
    where
      stuck : (x : Error) → ◌≡◌ {A = Result String} (err x) (ok path) → ⊥
      stuck x q = cc
