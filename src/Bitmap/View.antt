-- ===== src/Bitmap/View.antt =====
-- What a bitmap stands for: one Boolean for each index below `sz`. `set` and `get` on that view.
use neptun_os.Base.{
  ℕ, ◌*◌, ◌/◌, ◌%◌, ◌≤◌, ◌<◌, ◌≡◌, ◌≢◌, refl, ap, Bool, true, false, ok, bit_and, bit_or, arith,
  leb, ◌==◌, if◌then◌else◌, length, set, get_or, inl, inr, Bool-cases, length-set,
  get_elem?-eq-get_or, get_or-set_self, get_or-set_ne, ==_iff,
}
use neptun_os.Bits.{
  testbit, bit_at, complement, testbit-or, testbit-and, testbit-bit_at, testbit-complement,
  bit_and-bit_at,
}
use neptun_os.Bitmap.{Bitmap, load_word, set_bit, get_bit}

-- Bit `i` of the bitmap.
abbrev pub bit : Bitmap → ℕ → Bool
bit bm i = testbit (get_or bm.buffer (i / 64) 0) (i % 64)

-- Every index below `sz` lies in the buffer.
abbrev pub IsValid : Bitmap → Type 0
IsValid bm = bm.sz ≤ 64 * length bm.buffer

-- `b` is `a` with the bits where `p` holds set to `v`, and nothing else changed.
pub record Updated (a b : Bitmap) (p : ℕ → Bool) (v : Bool) : Type 0 where
  pub size : b.sz ≡ a.sz
  pub words : length b.buffer ≡ length a.buffer
  pub bits : (i : ℕ) → bit b i ≡ (if p i then v else bit a i)

module _ (bm : Bitmap) (valid : IsValid bm) (idx : ℕ) (inside : idx < bm.sz) where
  load : load_word bm.buffer (idx / 64) ≡ ok (get_or bm.buffer (idx / 64) 0)
  unfolding load_word
  load = rw (load_word, get_elem?-eq-get_or bm.buffer (idx / 64) 0 (omega arith))

  in_range : leb bm.sz idx ≡ false
  in_range = ground arith

  -- Reading an index below `sz` returns its bit.
  pub get_bit-bit : get_bit bm idx ≡ ok (bit bm idx)
  unfolding get_bit
  get_bit-bit = rw (in_range, load) (ap ok (bit_and-bit_at _ (idx % 64) (omega arith)))

  written : Bool → ℕ
  written val =
      let w = get_or bm.buffer (idx / 64) 0 in
      if val then bit_or w (bit_at (idx % 64)) else bit_and w (complement (bit_at (idx % 64)))

  testbit-written :
      (val : Bool) (j : ℕ)
      → j < 64
      → testbit (written val) j
        ≡ (if idx % 64 == j then val else testbit (get_or bm.buffer (idx / 64) 0) j)
  unfolding written
  testbit-written true j h = ground (
    arith,
    testbit-or (get_or bm.buffer (idx / 64) 0) (bit_at (idx % 64)) j,
    testbit-bit_at (idx % 64) j,
  )
  testbit-written false j h = ground (
    arith,
    testbit-and (get_or bm.buffer (idx / 64) 0) (complement (bit_at (idx % 64))) j,
    testbit-complement (bit_at (idx % 64)) j,
    testbit-bit_at (idx % 64) j,
  )

  after : Bool → Bitmap
  after val = record bm { buffer = set bm.buffer (idx / 64) (written val) }

  same_word : (i : ℕ) → idx / 64 ≡ i / 64 → (idx % 64 == i % 64) ≡ (idx == i)
  same_word i e = ground arith

  bit-after : (val : Bool) (i : ℕ) → bit (after val) i ≡ (if idx == i then val else bit bm i)
  unfolding after
  bit-after val i = elim (Bool-cases (idx / 64 == i / 64)) [
    | inl e ↦
        let word : idx / 64 ≡ i / 64 = (==_iff _ _).0 e in
        rw (← word, get_or-set_self bm.buffer (idx / 64) (written val) 0 (omega arith))
          (ground (arith, testbit-written val (i % 64) (omega arith), same_word i word))
    | inr ne ↦
        let word : idx / 64 ≢ i / 64 = λ e. ground arith in
        rw (get_or-set_ne bm.buffer (idx / 64) (i / 64) (written val) 0 word) (ground arith)
  ]

  -- Writing a bit below sz of a valid bitmap changes that bit and no other.
  pub set_bit-Updated :
      (val : Bool)
      → (bm' : Bitmap) × (set_bit bm idx val ≡ ok bm') × Updated bm bm' (λ i. idx == i) val
  unfolding set_bit after written
  set_bit-Updated val = (
    after val,
    rw (in_range, load),
    record { size = refl; words = length-set _ _ _; bits = bit-after val },
  )
