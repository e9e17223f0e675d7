-- ===== src/Bitmap.antt =====
-- BitmapSkeleton of kernel/src/util/bitmap.hh: a bitmap over an array of 64-bit words, as it is
-- built with `DBG` (config.hh), so an index out of bounds is fatal. The private `allocate_range`
-- is the two loops `scan` and `mark`. An answer of -1 is `none`.
pub mod View
pub mod Range
pub mod Alloc
pub mod Init
use neptun_os.Base.{
  ℕ, zero, suc, ◌+◌, ◌-◌, ◌/◌, ◌%◌, Bool, true, false, not, Option, none, some, List, Outcome, ok,
  fatal, ◌>>=◌, ◌>>◌, bit_and, bit_or, min, leb, ltb, ◌==◌, if◌then◌else◌, get_elem?, set,
}
use neptun_os.Bits.{bit_at, complement, u64_max}
use neptun_os.Arith.{align_down}

pub record Bitmap : Type 0 where
  pub buffer : List ℕ
  pub sz : ℕ

-- `buffer[i]`; outside the memory behind the pointer there is nothing to read.
unfoldable pub load_word : List ℕ → ℕ → Outcome ℕ
load_word buffer i = elim (get_elem? buffer i) [ none ↦ fatal | some w ↦ ok w ]

unfoldable pub set_bit : Bitmap → ℕ → Bool → Outcome Bitmap
unfolding load_word
set_bit bm idx val = if leb bm.sz idx then fatal else do
  let bufidx = idx / 64
  let bitidx = idx % 64
  w ← load_word bm.buffer bufidx
  ok (record bm {
    buffer =
        set bm.buffer bufidx
          (if val then bit_or w (bit_at bitidx) else bit_and w (complement (bit_at bitidx)));
  })

unfoldable pub get_bit : Bitmap → ℕ → Outcome Bool
unfolding load_word
get_bit bm idx = if leb bm.sz idx then fatal else do
  let bufidx = idx / 64
  let bitidx = idx % 64
  w ← load_word bm.buffer bufidx
  ok (not (bit_and w (bit_at bitidx) == 0))

-- `for (j = current; j <= i; j++) set(j, true)`, with the rounds left.
unfoldable pub mark : ℕ → ℕ → Bitmap → Outcome Bitmap
mark zero j bm = ok bm
mark (suc k) j bm = set_bit bm j true >>= mark k (j + 1)

-- The loop over `i`, with the rounds left.
unfoldable pub scan : Bitmap → (n rounds i current : ℕ) → Outcome (Option ℕ × Bitmap)
scan bm n zero i current = ok (none, bm)
scan bm n (suc k) i current = get_bit bm i >>= λ b. elim b [
  | true ↦ scan bm n k (i + 1) (i + 1)
  | false ↦ elim (i - current + 1 == n) [
    | true ↦ mark (i + 1 - current) current bm >>= λ bm'. ok (some current, bm')
    | false ↦ scan bm n k (i + 1) current
  ]
]

unfoldable pub allocate_range : Bitmap → (start end n : ℕ) → Outcome (Option ℕ × Bitmap)
unfolding scan mark
allocate_range bm start end n =
    let stop = min end bm.sz in if n == 0 then fatal else scan bm n (stop - start) start start

unfoldable pub find_and_set_multiple : Bitmap → (n start_at : ℕ) → Outcome (Option ℕ × Bitmap)
unfolding allocate_range
find_and_set_multiple bm n start_at = do
  (first, bm') ← allocate_range bm start_at bm.sz n
  elim first [ some c ↦ ok (some c, bm') | none ↦ allocate_range bm' 0 start_at n ]

-- The parameter `start_at` is not passed on.
unfoldable pub find_and_set : Bitmap → (start_at : ℕ) → Outcome (Option ℕ × Bitmap)
unfolding find_and_set_multiple
find_and_set bm start_at = find_and_set_multiple bm 1 0

-- `for (i = 0; i < sz / 64; i++) buffer[i] = defa`, with the rounds left.
unfoldable pub fill_words : ℕ → ℕ → ℕ → List ℕ → Outcome (List ℕ)
unfolding load_word
fill_words zero i defa buffer = ok buffer
fill_words (suc k) i defa buffer =
    load_word buffer i >>= λ _. fill_words k (i + 1) defa (set buffer i defa)

-- `memory` is what lies behind the pointer handed in.
unfoldable pub init : List ℕ → (units : ℕ) → Bool → Outcome Bitmap
unfolding fill_words
init memory units def = do
  let sz = align_down units 64
  buffer ← fill_words (sz / 64) 0 (if def then u64_max else 0) memory
  ok (record { buffer = buffer; sz = sz })
