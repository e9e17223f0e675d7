-- ===== src/Strings/Overruns.antt =====
-- Where a string writes behind its block: kernel/src/util/storage.hh, String.
use native.Mathlib.Nat.{mod-eq_of_lt}
use neptun_os.Base.{
  ℕ, zero, suc, ◌+◌, ◌%◌, ◌^◌, ◌≤◌, ◌<◌, ◌≡◌, refl, ap, ◌∙◌, Bool, true, false, some, ◌||◌, ok,
  fatal, Outcome, ◌>>=◌, leb, ◌==◌, if◌then◌else◌, inl, inr, Bool-cases, arith,
}
use neptun_os.Bits.{u64_mod}
use neptun_os.Text.{Bytes}
use neptun_os.Vector.{fetch, store, reserve}
use neptun_os.Vector.Laws.{Holds, reserve-Holds}
use neptun_os.Strings.{String, copy_block, copy, push_char}
use neptun_os.Strings.Blocks.{IsString, block, with_capacity-block}

-- A copy of more bytes than the block has left.
copy_block-overrun :
    (k i : ℕ) (o s : String) → i ≤ s.count → i + k ≡ s.count + 1 → copy_block k i o s ≡ fatal
unfolding copy_block store
copy_block-overrun zero i o s h e = absurd (omega arith)
copy_block-overrun (suc k) i o s h e = elim (Bool-cases (s.null || leb s.count i)) [
  | inl out ↦ over (fetch i o) out
  | inr inside ↦
      go (fetch i o) inside
        (λ c. copy_block-overrun k (i + 1) o (put_at c) (ground (arith, inside)) (omega (arith, e)))
]
  where
    put_at : ℕ → String
    put_at c = record s { cell = λ j. if j == i then some c else s.cell j }

    over :
        (m : Outcome ℕ)
        → (s.null || leb s.count i) ≡ true
        → (m >>= λ c. store i c s >>= copy_block k (i + 1) o) ≡ fatal
    over (ok c) out = rw out refl
    over fatal out = refl

    go :
        (m : Outcome ℕ)
        → (s.null || leb s.count i) ≡ false
        → ((c : ℕ) → copy_block k (i + 1) o (put_at c) ≡ fatal)
        → (m >>= λ c. store i c s >>= copy_block k (i + 1) o) ≡ fatal
    go (ok c) inside later = rw inside (later c)
    go fatal inside later = refl

-- The copy of a string of 1 to 2^64 - 1 bytes writes behind the block that it allocates.
pub copy-eq-fatal : (s : String) → 0 < s.size → s.size < u64_mod → copy s ≡ fatal
unfolding copy block
copy-eq-fatal s some_c fits =
    let filled : (s.size == 0) ≡ false = ground arith in
    rw filled (
      ap (copy_block (s.size + 1) 0 s) (with_capacity-block s.size s.size some_c fits)
      ∙ copy_block-overrun (s.size + 1) 0 s (block s.size s.size) (omega arith)
          (block_count s.size))
  where
    block_count : (n : ℕ) → 0 + (n + 1) ≡ n + 1
    block_count n = omega arith

-- Adding a byte to a string of less than 2^32 - 1 bytes writes the terminator behind its block.
pub push_char-overrun :
    (in_place : Bool) (c : ℕ) (s : String) (cs : Bytes)
    → Holds s cs
    → s.size + 1 < 2 ^ 32
    → push_char in_place c s ≡ fatal
unfolding push_char store
push_char-overrun in_place c s cs h small =
    let (s1, grown, h1, cap, size) =
      reserve-Holds 1 in_place (s.size + 1) s cs h (omega arith) (omega arith) (omega arith) in
    let live : s1.null ≡ false = ground (arith, h1.null_empty, cap) in
    let inside : (s1.null || leb s1.count s1.size) ≡ false =
      ground (arith, live, h1.block, cap, size) in
    let behind : (s1.null || leb s1.count (s1.size + 1)) ≡ true =
      ground (arith, h1.block, cap, size) in
    let want : (s.size + 1) % u64_mod ≡ s.size + 1 = mod-eq_of_lt (omega arith) in
    let new : (s1.size + 1) % u64_mod ≡ s1.size + 1 = mod-eq_of_lt (omega (arith, size)) in
    let grown' = ap (λ w. reserve 1 in_place w s) want ∙ grown in
    rw (grown', inside, new, behind) refl

-- A terminated string is one.
pub push_char-eq-fatal :
    (in_place : Bool) (c : ℕ) (s : String) (cs : Bytes)
    → IsString s cs
    → s.size + 1 < 2 ^ 32
    → push_char in_place c s ≡ fatal
push_char-eq-fatal in_place c s cs h small = push_char-overrun in_place c s cs h.chars small
