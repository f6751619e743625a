-- ===== src/Tests/Host.antt =====
-- Versions, addresses and backups.
use apod.Base.{
  ◌≡◌, refl, true, false, not, String, some, List, [], ◌∷◌, Result, ok, has_prefix, arith,
}
use apod.Update.{version_is_newer}
use apod.Update.Parsing.{written}
use apod.Update.Order.{IsAbove, version_is_newer-written}
use apod.Egress.{is_public_ip}
use apod.Egress.Ranges.{is_reserved, number, is_public_ip-ranges}
use apod.Backups.{Backup, get_backup, path_of_backup, get_backup_path}
use apod.Backups.Paths.{Located, get_backup_path-Located}
use apod.Tests.Sites.{site}

newer : version_is_newer "v1.10.0" "1.9.3-rc1" ≡ true
unfolding version_is_newer
newer = refl

version_is_newer-written_example :
    (version_is_newer (written true 1 10 0 "") (written false 1 9 3 "-rc1") ≡ true
      → IsAbove 1 10 0 1 9 3)
    × (IsAbove 1 10 0 1 9 3
        → version_is_newer (written true 1 10 0 "") (written false 1 9 3 "-rc1") ≡ true)
version_is_newer-written_example =
    version_is_newer-written true false 1 10 0 1 9 3 "" "-rc1" (omega arith) (omega arith)
      (omega arith) (omega arith) (omega arith) (omega arith) refl refl

is_public_ip-ranges_example :
    is_public_ip (some (172 ∷ 20 ∷ 0 ∷ 1 ∷ [])) ≡ not (is_reserved (number 172 20 0 1))
is_public_ip-ranges_example =
    is_public_ip-ranges 172 20 0 1 (omega arith) (omega arith) (omega arith) (omega arith)

-- An internal address behind the prefix 64:ff9b::/96, by which a NAT64 gateway reaches it.
nat64 :
    is_public_ip (some (0 ∷ 100 ∷ 255 ∷ 155 ∷ 0 ∷ 0 ∷ 0 ∷ 0 ∷ 0 ∷ 0 ∷ 0 ∷ 0 ∷ 10 ∷ 0 ∷ 0 ∷ 1 ∷ []))
    ≡ true
unfolding is_public_ip
nat64 = refl

abbrev backups : Result (List Backup)
backups = ok (record { id = 4; site_domain = "a.com"; path = "a.com/x.tar" } ∷ [])

abbrev backup_path : String
backup_path = "/home/alice/backups/a.com/x.tar"

readable : get_backup_path "/var/lib/apod" backups (ok site) "a.com" 4 ≡ ok backup_path
unfolding get_backup_path get_backup path_of_backup
readable = refl

data_dir-absolute : has_prefix "/var/lib/apod" "/" ≡ true
unfolding has_prefix
data_dir-absolute = refl

get_backup_path-Located_example : Located "/var/lib/apod" backups (ok site) "a.com" 4 backup_path
get_backup_path-Located_example =
    get_backup_path-Located "/var/lib/apod" data_dir-absolute backups (ok site) "a.com" 4
      backup_path readable
