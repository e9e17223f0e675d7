-- ===== src/Fat.antt =====
-- The FAT32 module, kernel/modules/fat/src/fat.cc: mounting a volume, and the files behind the chains of
-- clusters. What `mod_main` reads from the volume is given: the fields of its boot sector, and the table
-- `fat`; `disk` is the disk that it lies on. The lookup of a path is in Directory.
pub mod Chain
pub mod Files
pub mod Directory
pub mod Names
pub mod Lookup
pub mod Hidden
use neptun_os.Base.{
  ℕ, zero, suc, ◌+◌, ◌-◌, ◌*◌, ◌/◌, ◌%◌, ◌^◌, Bool, true, false, ◌&&◌, ◌||◌, not, Option, none,
  some, List, [], ◌∷◌, ◌++◌, Outcome, ok, fatal, ◌>>=◌, min, bit_or, leb, ltb, ◌==◌, if◌then◌else◌,
  get_elem?,
}
use neptun_os.Bits.{u64_mod}
use neptun_os.Text.{Bytes}
use neptun_os.Disk.{span, msd_read}

-- The fields of the boot sector that are used.
pub record Bpb : Type 0 where
  pub bytespersector : ℕ
  pub sectorspercluster : ℕ
  pub num_reserved_sectors : ℕ
  pub num_fats : ℕ
  pub sectorsperfat : ℕ

pub record Handle : Type 0 where
  pub bpb : Bpb
  pub fat : List ℕ
  pub fatsize : ℕ
  pub dataoffset : ℕ

-- `none` for a volume that is refused. `scanned` tells whether it has a handle; `read_table` is the table of
-- `fatsize` bytes that lies at a place of the disk. The products are of 32 bits, but for the last.
unfoldable pub mod_main :
    (read_table : ℕ → ℕ → List ℕ) (scanned : Bool) (offset : ℕ) → Bpb → Outcome (Option Handle)
mod_main read_table scanned offset bpb =
    let bps = bpb.bytespersector in
    let fatsize = bpb.sectorsperfat * bps % 2 ^ 32 in
    let fatoffset = (offset + bpb.num_reserved_sectors * bps % 2 ^ 32) % u64_mod in
    if scanned || offset == 0
    then fatal
    else if ltb bps 512 || ltb 0x1000 bps
    then ok none
    else if bpb.sectorspercluster == 0
    then ok none
    else if not (bpb.num_fats == 1) && not (bpb.num_fats == 2)
    then ok none
    else ok (
        some (record {
          bpb = bpb;
          fat = read_table fatoffset fatsize;
          fatsize = fatsize;
          dataoffset = (fatoffset + bpb.num_fats * bpb.sectorsperfat * bps) % u64_mod;
        }))

-- Cluster numbers are u32; the sum for the high half is taken by `|`.
unfoldable pub clusterfrom : (lo hi : ℕ) → ℕ
clusterfrom lo hi = bit_or lo (hi * 2 ^ 16 % 2 ^ 32)

unfoldable pub clusteroff : Handle → (clusterlo clusterhi : ℕ) → ℕ
unfolding clusterfrom
clusteroff h clusterlo clusterhi =
    (h.dataoffset
      + (clusterfrom clusterlo clusterhi + 2 ^ 32 - 2)
        % 2 ^ 32
        * h.bpb.bytespersector
        * h.bpb.sectorspercluster
        % 2 ^ 32)
    % u64_mod

unfoldable pub diskoffset : Handle → ℕ → Outcome ℕ
diskoffset h cluster =
    if ltb cluster 2 then fatal else ok ((h.dataoffset + (cluster - 2) * 512 % 2 ^ 32) % u64_mod)

-- The first number that marks the end of a chain.
abbrev pub chain_end : ℕ
chain_end = 0x0ffffff8

-- `h->fat[cluster] & 0x0fffffff`
unfoldable pub fat_at : Handle → ℕ → Outcome ℕ
fat_at h cluster = elim (get_elem? h.fat cluster) [ none ↦ fatal | some e ↦ ok (e % 2 ^ 28) ]

-- The loop that skips clusters, with the rounds left.
unfoldable pub skip : Handle → ℕ → (cluster : ℕ) → Outcome ℕ
skip h zero cluster = ok cluster
skip h (suc k) cluster = fat_at h cluster >>= λ fatent. elim (leb chain_end cluster) [
  | true ↦ fatal
  | false ↦ skip h k fatent
]

-- The loop that reads: the number of bytes it has read and those that it has written from `buf` on. One
-- with no rounds left has not ended, and gives `unfinished`.
unfoldable pub read_chain :
    (unfinished : Outcome (ℕ × Bytes)) (disk : ℕ → ℕ)
    → Handle
    → (rounds : ℕ) → (cluster clusteroff bytes buf bytes_read : ℕ) → Bytes
    → Outcome (ℕ × Bytes)
read_chain unfinished disk h zero cluster clusteroff bytes buf bytes_read out = unfinished
read_chain unfinished disk h (suc k) cluster clusteroff bytes buf bytes_read out =
    elim (bytes == 0) [
      | true ↦ ok (bytes_read, out)
      | false ↦
          let bytespercluster = h.bpb.bytespersector * h.bpb.sectorspercluster in
          let readlen = min bytes (bytespercluster - clusteroff) in
          (if buf == 0
            then ok out
            else (diskoffset h cluster >>= λ at.
                msd_read disk ((at + clusteroff) % u64_mod) readlen buf >>= λ piece.
                ok (out ++ piece)))
          >>= λ out'. fat_at h cluster >>= λ fatent. elim (leb chain_end fatent) [
            | true ↦ ok ((bytes_read + readlen) % u64_mod, out')
            | false ↦ elim (buf == 0) [
              | true ↦
                  read_chain unfinished disk h k fatent 0 bytes 0 ((bytes_read + readlen) % u64_mod)
                    out'
              | false ↦
                  read_chain unfinished disk h k fatent 0 (bytes - readlen)
                    ((buf + readlen) % u64_mod) ((bytes_read + readlen) % u64_mod) out'
            ]
          ]
    ]

-- Without a buffer the count of bytes is 2^32 - 1 and does not fall. The index of the clusters skipped is
-- a u32.
unfoldable pub chainread :
    (unfinished : Outcome (ℕ × Bytes)) (disk : ℕ → ℕ)
    → Handle
    → (rounds : ℕ) → (cluster offset bytes buf : ℕ) → Outcome (ℕ × Bytes)
chainread unfinished disk h rounds cluster offset bytes buf =
    let bytespercluster = h.bpb.bytespersector * h.bpb.sectorspercluster in
    let bytes' = if buf == 0 then 2 ^ 32 - 1 else bytes in
    if bytespercluster == 0 || leb (2 ^ 32) (offset / bytespercluster)
    then fatal
    else (skip h (offset / bytespercluster) cluster >>= λ c.
        read_chain unfinished disk h rounds c (offset % bytespercluster) bytes' buf 0 [])
