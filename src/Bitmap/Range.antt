-- ===== src/Bitmap/Range.antt =====
-- The two loops of `allocate_range`: `mark` sets a run of bits, `scan` finds the first free run.
use native.Mathlib.Nat.{le_refl}
use native.Mathlib.Decide.{ℕ_discrete}
use neptun_os.Base.{
  ℕ, zero, suc, ◌+◌, ◌-◌, ◌≤◌, ◌<◌, ◌≡◌, ◌≢◌, refl, Bool, true, false, ◌&&◌, Option, some, none,
  Outcome, ok, arith, leb, ltb, inl, inr, Bool-cases, ltb→lt, ltb→le, ◌>>=◌,
}
use neptun_os.Bitmap.{Bitmap, mark, scan}
use neptun_os.Bitmap.View.{bit, IsValid, Updated, set_bit-Updated, get_bit-bit}

-- the indices from `lo` up to `hi`
abbrev pub between : ℕ → ℕ → ℕ → Bool
between lo hi i = leb lo i && ltb i hi

-- Marking `k` bits from `j` on sets just these.
pub mark-Updated :
    (k j : ℕ) (bm : Bitmap)
    → IsValid bm
    → j + k ≤ bm.sz
    → (bm' : Bitmap) × (mark k j bm ≡ ok bm') × Updated bm bm' (between j (j + k)) true
unfolding mark
mark-Updated zero j bm v h =
    (bm, refl, record { size = refl; words = refl; bits = λ i. ground arith })
mark-Updated (suc k) j bm v h =
    let (bm1, e1, u1) = set_bit-Updated bm v j (omega arith) true in
    let (bm2, e2, u2) =
      mark-Updated k (j + 1) bm1 (omega (arith, u1.size, u1.words)) (omega (arith, u1.size)) in
    (
      bm2,
      rw (e1, e2),
      record {
        size = omega (arith, u1.size, u2.size);
        words = omega (arith, u1.words, u2.words);
        bits = λ i. ground (arith, u1.bits i, u2.bits i);
      },
    )

-- `n` clear bits from `c` on
abbrev pub Free : Bitmap → ℕ → ℕ → Type 0
Free bm c n = (i : ℕ) → c ≤ i → i < c + n → bit bm i ≡ false

-- What a search for `n` clear bits between `lo` and `hi` may answer: the first such run, which is now
-- set, while all else is as before; or -1 with nothing changed, if there is no such run.
pub data Answer (bm : Bitmap) (lo hi n : ℕ) : Outcome (Option ℕ × Bitmap) → Type 0 where
  found :
      {c : ℕ} {bm' : Bitmap}
      → lo ≤ c
      → c + n ≤ hi
      → Free bm c n
      → ((c' : ℕ) → lo ≤ c' → c' < c → ¬ Free bm c' n)
      → Updated bm bm' (between c (c + n)) true
      → Answer bm lo hi n (ok (some c, bm'))
  full : ((c : ℕ) → lo ≤ c → c + n ≤ hi → ¬ Free bm c n) → Answer bm lo hi n (ok (none, bm))

module _ (bm : Bitmap) (v : IsValid bm) (lo hi n : ℕ) (inside : hi ≤ bm.sz) where
  -- `current` starts the run of clear bits that ends at `i`; it is shorter than `n`, and no run of
  -- `n` clear bits starts before it.
  record Scanned (i current : ℕ) : Type 0 where
    from : lo ≤ current
    upto : current ≤ i
    short : i < current + n
    clear : (j : ℕ) → current ≤ j → j < i → bit bm j ≡ false
    none_before : (c : ℕ) → lo ≤ c → c < current → ¬ Free bm c n

  reset : {i current : ℕ} → 0 < n → Scanned i current → bit bm i ≡ true → Scanned (i + 1) (i + 1)
  reset {i} {current} pos s on = record {
    from = omega arith;
    upto = omega arith;
    short = omega arith;
    clear = λ j p q. absurd (omega arith);
    none_before = λ c p q free. elim (Bool-cases (ltb c current)) [
      | inl b ↦ s.none_before c p (ltb→lt _ _ b) free
      | inr b ↦ ground (arith, ltb→le _ _ b, free i)
    ];
  }

  extend :
      {i current : ℕ}
      → Scanned i current
      → bit bm i ≡ false
      → (j : ℕ) → current ≤ j
      → j < i + 1
      → bit bm j ≡ false
  extend {i} s off j p q = elim (Bool-cases (ltb j i)) [
    | inl b ↦ s.clear j p (ltb→lt _ _ b)
    | inr b ↦ let e : i ≡ j = omega (arith, ltb→le j i b) in rw (← e) off
  ]

  -- the three ways through the body of the loop
  scan_skip :
      (k i current : ℕ)
      → i < bm.sz
      → bit bm i ≡ true
      → scan bm n (suc k) i current ≡ scan bm n k (i + 1) (i + 1)
  unfolding scan
  scan_skip k i current h on = rw (get_bit-bit bm v i h, on)

  scan_longer :
      (k i current : ℕ)
      → i < bm.sz
      → bit bm i ≡ false
      → i - current + 1 ≢ n
      → scan bm n (suc k) i current ≡ scan bm n k (i + 1) current
  unfolding scan
  scan_longer k i current h off ne = ground (arith, get_bit-bit bm v i h)

  scan_done :
      (k i current : ℕ)
      → i < bm.sz
      → bit bm i ≡ false
      → i - current + 1 ≡ n
      → scan bm n (suc k) i current
        ≡ (mark (i + 1 - current) current bm >>= λ bm'. ok (some current, bm'))
  unfolding scan
  scan_done k i current h off e = ground (arith, get_bit-bit bm v i h)

  hit :
      {i current : ℕ}
      → i < hi
      → Scanned i current
      → bit bm i ≡ false
      → i - current + 1 ≡ n
      → Answer bm lo hi n (mark (i + 1 - current) current bm >>= λ bm'. ok (some current, bm'))
  hit {i} {current} below s off e =
      let whole : i + 1 - current ≡ n = omega (arith, s.upto) in
      let (bm', e', u) = mark-Updated n current bm v (omega (arith, s.upto)) in
      rw (whole, e')
        (found s.from (omega (arith, s.upto)) (λ j p q. extend s off j p (omega (arith, s.upto)))
          s.none_before u)

  scan-Answer :
      (k i current : ℕ)
      → 0 < n
      → i + k ≡ hi
      → Scanned i current
      → Answer bm lo hi n (scan bm n k i current)
  scan-Answer zero i current pos e s =
      unfold scan in
      full λ c p q free. elim (Bool-cases (ltb c current)) [
        | inl b ↦ s.none_before c p (ltb→lt _ _ b) free
        | inr b ↦ absurd (omega (arith, ltb→le _ _ b, s.short))
      ]
  scan-Answer (suc k) i current pos e s = elim (Bool-cases (bit bm i)) [
    | inl on ↦
        rw (scan_skip k i current (omega arith) on)
          (scan-Answer k (i + 1) (i + 1) pos (omega arith) (reset pos s on))
    | inr off ↦ elim (ℕ_discrete (i - current + 1) n) [
      | yes full_run ↦
          rw (scan_done k i current (omega arith) off full_run) (hit (omega arith) s off full_run)
      | no short_run ↦ rw (scan_longer k i current (omega arith) off short_run) (
          scan-Answer k (i + 1) current pos (omega arith) (record {
            from = s.from;
            upto = omega (arith, s.upto);
            short = omega (arith, s.short, s.upto);
            clear = extend s off;
            none_before = s.none_before;
          }))
    ]
  ]

  -- The loop of `allocate_range` never faults, and answers the first free run.
  pub scan_lem : lo ≤ hi → 0 < n → Answer bm lo hi n (scan bm n (hi - lo) lo lo)
  scan_lem h pos = scan-Answer (hi - lo) lo lo pos (omega arith) (record {
    from = le_refl lo;
    upto = le_refl lo;
    short = omega arith;
    clear = λ j p q. absurd (omega arith);
    none_before = λ c p q. absurd (omega arith);
  })
