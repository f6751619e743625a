-- ===== src/Tests/Mounts.antt =====
-- A mount table with a partition for /home.
use apod.Base.{◌≡◌, refl, String, some, split, has_prefix, split_char}
use apod.Quota.{covers, mount_point_for, best_mount, best_of, longer_cover, fields, words, second}

abbrev mounts : String
mounts = "/dev/sda1 / ext4 rw\n/dev/sdb1 /home ext4 rw\n/dev/sdc1 /home/al ext4 rw\nproc\n"

home_chosen : mount_point_for (some mounts) "/home/alice" ≡ "/home"
unfolding mount_point_for best_mount best_of longer_cover fields words second covers split
    split_char has_prefix
home_chosen = refl
