-- ===== src/Disk.antt =====
-- msd_read of kernel/src/devmgr/msd/msd.cc. `disk` gives the byte at each place of the disk: the driver
-- that `funcs->read` calls fills its buffer with the bytes of whole sectors. What is returned is what
-- stands at `buf` afterwards; `buf` itself is the address.
pub mod Laws
use neptun_os.Base.{
  ℕ, zero, suc, ◌+◌, ◌*◌, ◌/◌, ◌%◌, Bool, true, false, ◌&&◌, List, [], ◌∷◌, Outcome, ok, fatal,
  ◌>>=◌, if◌then◌else◌,
}
use neptun_os.Arith.{align, isaligned}
use neptun_os.Text.{Bytes}

-- the `n` bytes of the disk from place `at` on
unfoldable pub span : (disk : ℕ → ℕ) (at n : ℕ) → Bytes
span disk at zero = []
span disk at (suc n) = disk at ∷ span disk (at + 1) n

-- `funcs->read`
unfoldable pub read_sectors : (disk : ℕ → ℕ) (lba sectors : ℕ) → Bytes
read_sectors disk lba sectors = span disk (lba * 512) (sectors * 512)

-- `memcpy` of `n` bytes from place `i` of a block
unfoldable pub slice : Bytes → (i n : ℕ) → Outcome Bytes
slice b i zero = ok []
slice [] i (suc n) = fatal
slice (c ∷ b) zero (suc n) = slice b zero n >>= λ out. ok (c ∷ out)
slice (c ∷ b) (suc i) (suc n) = slice b i (suc n)

unfoldable pub msd_read : (disk : ℕ → ℕ) (offset bytes buf : ℕ) → Outcome Bytes
unfolding read_sectors
msd_read disk offset bytes buf =
    if isaligned offset 512 && isaligned bytes 512 && isaligned buf 512
    then ok (read_sectors disk (offset / 512) (bytes / 512))
    else slice (read_sectors disk (offset / 512) (align bytes 512 / 512)) (offset % 512) bytes
