-- ===== src/Backups.antt =====
-- internal/engine/backup.go: where a backup is read from.
pub mod Paths
use apod.Base.{
  ℕ, not, String, ◌<>◌, none, some, List, Result, ok, err, plain, ◌>>=◌, ◌==◌, nat_eq, string_eq,
  if◌then◌else◌, find, has_prefix,
}
use apod.Db.Sites.{SiteRow}
use apod.Compose.{clean}

-- A row of `backups`; storage, size, status and time are left out.
pub record Backup : Type 0 where
  pub id : ℕ
  pub site_domain : String
  pub path : String

-- `GetBackup`, of a table that can be read or not.
unfoldable pub get_backup : ℕ → Result (List Backup) → Result Backup
unfolding find
get_backup id (err x) = err x
get_backup id (ok rows) = elim (find (λ (b : Backup). b.id == id) rows) [
  | none ↦ err (plain "backup %d not found")
  | some b ↦ ok b
]

-- `filepath.Join` of two texts that are not empty.
unfoldable pub join_paths : String → String → String
unfolding clean
join_paths a b = clean (a <> ("/" <> b))

-- `backupDir`.
unfoldable pub backup_dir : String → String → String
unfolding join_paths clean
backup_dir data_dir owner =
    if owner == "" then join_paths data_dir "backups" else clean ("/home/" <> (owner <> "/backups"))

-- The owner of the site, or nobody's name.
abbrev pub owner_of : Result SiteRow → String
owner_of (err x) = ""
owner_of (ok s) = s.owner

-- The checks on a backup that is found.
unfoldable pub path_of_backup : String → String → Backup → Result String
unfolding join_paths has_prefix
path_of_backup dir domain b =
    if not (b.site_domain == domain)
    then err (plain "backup does not belong to this site")
    else if not (has_prefix (join_paths dir b.path) (dir <> "/"))
    then err (plain "invalid backup path")
    else ok (join_paths dir b.path)

-- `GetBackupPath`, with what the two look-ups answer.
unfoldable pub get_backup_path :
    String → Result (List Backup) → Result SiteRow → String → ℕ → Result String
unfolding get_backup backup_dir path_of_backup
get_backup_path data_dir backups site domain id =
    get_backup id backups >>= path_of_backup (backup_dir data_dir (owner_of site)) domain
