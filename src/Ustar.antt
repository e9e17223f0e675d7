-- ===== src/Ustar.antt =====
-- The tar archives of kernel/src/util/ustar.{hh,cc}. `archive` is the list of the bytes from its address on,
-- and a place in it is the distance from there. A loop that has no rounds left has not ended: ustar_lookup
-- then gives `unfinished`, and ustar_list `fatal`.
pub mod Laws
use neptun_os.Base.{
  ℕ, zero, suc, ◌+◌, ◌-◌, ◌*◌, ◌/◌, ◌%◌, ◌^◌, Bool, true, false, ◌&&◌, Option, none, some, List, [],
  ◌∷◌, Outcome, ok, fatal, ◌>>=◌, ltb, ◌==◌, if◌then◌else◌,
}
use neptun_os.Text.{Bytes, peek, next, strlen, strncmp}
use neptun_os.Text.Copy.{drop}

pub record UstarFile : Type 0 where
  pub name : ℕ
  pub size : ℕ
  pub address : ℕ

-- Where the fields of a header stand, and its length.
abbrev pub filesize_at : ℕ
filesize_at = 124

abbrev pub magic_at : ℕ
magic_at = 257

abbrev pub header_size : ℕ
header_size = 512

abbrev pub ustar : Bytes
ustar = 0x75 ∷ 0x73 ∷ 0x74 ∷ 0x61 ∷ 0x72 ∷ 0 ∷ []

-- The loop of `oct2bin`, in an int of 32 bits.
unfoldable pub oct2bin : (size : ℕ) → Bytes → (n : ℕ) → Outcome ℕ
oct2bin zero str n = ok n
oct2bin (suc k) str n =
    peek str >>= λ c. oct2bin k (next str) ((n * 8 + c + 2 ^ 32 - 0x30) % 2 ^ 32)

-- `align(size, 512) / 512` for a u32, in bytes
unfoldable pub padded_size : ℕ → ℕ
padded_size size = (size + 511) % 2 ^ 32 / 512 * 512

-- The test of both loops at `off`.
unfoldable pub at_header : (archive : Bytes) (archivesize off : ℕ) → Outcome Bool
at_header archive archivesize off =
    if ltb off archivesize
    then (strncmp (drop (off + magic_at) archive) ustar 5 >>= λ r. ok (r == 0))
    else ok false

unfoldable pub ustar_lookup :
    (unfinished : Outcome (Option UstarFile)) (rounds : ℕ)
    → (archive : Bytes) (archivesize : ℕ) (file : Bytes) (off : ℕ) → Outcome (Option UstarFile)
unfolding at_header
ustar_lookup unfinished zero archive archivesize file off = unfinished
ustar_lookup unfinished (suc k) archive archivesize file off =
    at_header archive archivesize off >>= λ more. elim more [
      | false ↦ ok none
      | true ↦ oct2bin 12 (drop (off + filesize_at) archive) 0 >>= λ size. strlen file >>= λ n.
          strncmp file (drop off archive) n >>= λ r. elim (r == 0) [
            | true ↦ ok (some (record { name = off; size = size; address = off + header_size }))
            | false ↦ ustar_lookup unfinished k archive archivesize file (off + padded_size size)
          ]
    ]

unfoldable pub ustar_list :
    (rounds : ℕ) → (archive : Bytes) (archivesize : ℕ) (off : ℕ) → Outcome (List UstarFile)
unfolding at_header
ustar_list zero archive archivesize off = fatal
ustar_list (suc k) archive archivesize off = at_header archive archivesize off >>= λ more.
    elim more [
      | false ↦ ok []
      | true ↦ oct2bin 11 (drop (off + filesize_at) archive) 0 >>= λ size.
          ustar_list k archive archivesize (off + padded_size size + header_size) >>= λ rest.
          ok (record { name = off; size = size; address = off + header_size } ∷ rest)
    ]
