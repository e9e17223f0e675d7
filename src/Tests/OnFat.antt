-- ===== src/Tests/OnFat.antt =====
-- Disks and FAT volumes.
use neptun_os.Base.{
  ◌||◌, ℕ, ◌+◌, ◌%◌, ◌≡◌, refl, ◌&&◌, [], ◌∷◌, ok, fatal, arith, leb, ◌==◌, if◌then◌else◌,
}
use neptun_os.Text.{Bytes}
use neptun_os.Arith.{align}
use neptun_os.Disk.{span, slice, msd_read}
use neptun_os.Disk.Laws.{msd_read_lem}
use neptun_os.Fat.{Handle, fat_at, chainread}
use neptun_os.Fat.Chain.{contents}
use neptun_os.Fat.Files.{chainread-contents, chainread-endless}

abbrev counting_disk : ℕ → ℕ
counting_disk a = a % 256

-- 100 bytes from byte 500 of a sector on
msd_read_lem_example :
    msd_read counting_disk 500 100 0x1000
    ≡ (if leb (500 % 512 + 100) (align 100 512) then ok (span counting_disk 500 100) else fatal)
msd_read_lem_example = msd_read_lem counting_disk 500 100 0x1000 (omega arith) (omega arith)

-- A volume whose cluster 2 is followed by cluster 3, and whose cluster 4 is followed by itself.
abbrev volume : Handle
volume = record {
  bpb = record {
    bytespersector = 512;
    sectorspercluster = 1;
    num_reserved_sectors = 32;
    num_fats = 2;
    sectorsperfat = 1;
  };
  fat = 0 ∷ 0 ∷ 3 ∷ 0xfffffff ∷ 4 ∷ [];
  fatsize = 512;
  dataoffset = 4096;
}

chainread-contents_example :
    (piece : Bytes) × (chainread fatal counting_disk volume 3 2 500 100 0x1000 ≡ ok (100, piece))
    × (slice (contents counting_disk volume (2 ∷ 3 ∷ [])) 500 100 ≡ ok piece)
unfolding fat_at
chainread-contents_example =
    chainread-contents fatal counting_disk volume 2 (3 ∷ []) 500 100 0x1000 refl refl
      (refl, omega arith, (0xfffffff, refl, omega arith))
      ((omega arith, omega arith, omega arith), ((omega arith, omega arith, omega arith), tt))
      (omega arith) (omega arith) (omega arith) (omega arith) (omega arith)

chainread-endless_example : chainread (ok (0, [])) counting_disk volume 1000 4 0 1 0 ≡ ok (0, [])
unfolding fat_at
chainread-endless_example =
    chainread-endless (ok (0, [])) counting_disk volume (λ c. c ≡ 4) 1000 4 1 (omega arith)
      (omega arith) (λ d e. (4, rw e refl, omega arith, refl)) refl

-- A disk whose root folder holds the files "B" and "A".
abbrev root_disk : ℕ → ℕ
root_disk a =
    if a == 4096
    then 0x42
    else if a == 4128
    then 0x41
    else if (leb 4097 a && leb a 4107) || (leb 4129 a && leb a 4139)
    then 0x20
    else 0
