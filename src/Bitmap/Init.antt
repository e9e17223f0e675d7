-- ===== src/Bitmap/Init.antt =====
-- `init`: all bits get the default, and `sz` is rounded down to whole words.
use neptun_os.Base.{
  ℕ, zero, suc, ◌+◌, ◌*◌, ◌/◌, ◌%◌, ◌≤◌, ◌<◌, ◌≡◌, refl, ◌∙◌, Bool, true, false, ok, List, arith,
  ◌==◌, if◌then◌else◌, length, set, get_or, length-set, get_elem?-eq-get_or, get_or-set_self,
  get_or-set_ne, ==_iff, inl, inr, Bool-cases,
}
use neptun_os.Bits.{testbit, testbit-zero, testbit-ones, u64_max}
use neptun_os.Arith.{align_down}
use neptun_os.Bitmap.{Bitmap, load_word, fill_words, init}
use neptun_os.Bitmap.View.{bit, IsValid}
use neptun_os.Bitmap.Range.{between}

fill_words_step :
    (k i v : ℕ) (buffer : List ℕ)
    → i < length buffer
    → fill_words (suc k) i v buffer ≡ fill_words k (i + 1) v (set buffer i v)
unfolding fill_words load_word
fill_words_step k i v buffer h = ground (arith, get_elem?-eq-get_or buffer i 0 h)

-- Filling `k` words from word `i` on.
fill_words_lem :
    (k i v : ℕ) (buffer : List ℕ)
    → i + k ≤ length buffer
    → (out : List ℕ) × (fill_words k i v buffer ≡ ok out)
      × (length out ≡ length buffer)
      × ((j : ℕ) → get_or out j 0 ≡ (if between i (i + k) j then v else get_or buffer j 0))
unfolding fill_words
fill_words_lem zero i v buffer h = (buffer, refl, refl, λ j. ground arith)
fill_words_lem (suc k) i v buffer h =
    let (out, e, l, w) =
      fill_words_lem k (i + 1) v (set buffer i v) (omega (arith, length-set buffer i v)) in
    (
      out,
      rw (fill_words_step k i v buffer (omega arith)) e,
      omega (arith, length-set buffer i v),
      λ j. w j ∙ elim (Bool-cases (i == j)) [
        | inl e' ↦
            let same : i ≡ j = (==_iff _ _).0 e' in
            rw (← same) (ground (arith, get_or-set_self buffer i v 0 (omega arith)))
        | inr ne ↦ ground (arith, get_or-set_ne buffer i j v 0)
      ],
    )

default_bit : (def : Bool) (j : ℕ) → j < 64 → testbit (if def then u64_max else 0) j ≡ def
default_bit true j h = ground (arith, testbit-ones 64 j)
default_bit false j h = testbit-zero j

-- Over enough memory, init returns a valid bitmap of the requested size rounded down to whole words, in
-- which every bit is the default.
pub init_lem :
    (memory : List ℕ) (units : ℕ) (def : Bool)
    → align_down units 64 ≤ 64 * length memory
    → (bm : Bitmap) × (init memory units def ≡ ok bm)
      × (bm.sz ≡ align_down units 64)
      × IsValid bm
      × ((i : ℕ) → i < bm.sz → bit bm i ≡ def)
unfolding init align_down
init_lem memory units def h =
    let (out, e, l, w) =
      fill_words_lem (units / 64 * 64 / 64) 0 (if def then u64_max else 0) memory (omega arith) in
    (
      record { buffer = out; sz = units / 64 * 64 },
      rw e,
      refl,
      omega arith,
      λ i p. rw w (ground (arith, default_bit def (i % 64))),
    )
