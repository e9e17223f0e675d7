-- ===== src/Paths/Mounts.antt =====
-- Which mount point fs_find_mnt gives: kernel/src/fs/fs.cc.
use neptun_os.Base.{◌≤◌, ◌<◌, ◌^◌, List, [], ◌∷◌, length}
use neptun_os.Text.{Bytes}

-- The paths are below 4 GiB.
abbrev pub AreShort : List Bytes → Type 0
AreShort [] = Unit
AreShort (m ∷ ms) = (length m < 2 ^ 32) × AreShort ms

-- None of the mount points that are not longer than the path is longer than `c`.
abbrev pub IsLongest : (s c : Bytes) → List Bytes → Type 0
IsLongest s c [] = Unit
IsLongest s c (m ∷ ms) = (length m ≤ length s → length m ≤ length c) × IsLongest s c ms
