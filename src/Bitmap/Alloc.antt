-- ===== src/Bitmap/Alloc.antt =====
-- The public searches of the bitmap: where they look, which run they take, and when they give up.
use neptun_os.Base.{
  ℕ, ◌+◌, ◌-◌, ◌≤◌, ◌<◌, ◌≡◌, refl, true, false, not, Option, some, none, Outcome, ok, min, ◌⊎◌,
  arith, ltb, inl, inr, Bool-cases, ltb→le, ltb→lt, ◌>>=◌, ◌==◌,
}
use neptun_os.Bitmap.{Bitmap, allocate_range, find_and_set_multiple, find_and_set}
use neptun_os.Bitmap.View.{bit, IsValid, Updated}
use neptun_os.Bitmap.Range.{Free, Answer, found, full, between, scan_lem}

-- On a valid bitmap and for a positive n the search of a range never faults, and sets and returns its
-- first run of n clear bits, or returns -1 with nothing changed if it has none.
pub allocate_range-Answer :
    (bm : Bitmap) (start end n : ℕ)
    → IsValid bm
    → 0 < n
    → Answer bm start (min end bm.sz) n (allocate_range bm start end n)
unfolding allocate_range
allocate_range-Answer bm start end n v pos =
    let positive : (n == 0) ≡ false = ground arith in
    rw positive (elim (Bool-cases (ltb (min end bm.sz) start)) [
      | inl empty ↦
          let rounds : min end bm.sz - start ≡ 0 = omega (arith, ltb→lt _ _ empty) in
          rw rounds (full λ c p q free. absurd (omega (arith, ltb→lt _ _ empty)))
      | inr some_room ↦
          scan_lem bm v start (min end bm.sz) n (omega arith) (ltb→le _ _ some_room) pos
    ])

-- What a search that starts at `start` and wraps round may answer: a run of clear bits, now set, which
-- does not go across `start`, and is the first one from `start` on if there is one; or -1 with nothing changed, if there is no run
-- from `start` on and none that ends by `start`.
pub data Search (bm : Bitmap) (n start : ℕ) : Outcome (Option ℕ × Bitmap) → Type 0 where
  claimed :
      {c : ℕ} {bm' : Bitmap}
      → c + n ≤ bm.sz
      → (start ≤ c) ⊎ (c + n ≤ start)
      → Free bm c n
      → Updated bm bm' (between c (c + n)) true
      → ((d : ℕ) → start ≤ d → d + n ≤ bm.sz → Free bm d n → (start ≤ c) × (c ≤ d))
      → Search bm n start (ok (some c, bm'))
  exhausted :
      ((d : ℕ) → start ≤ d → d + n ≤ bm.sz → ¬ Free bm d n)
      → ((d : ℕ) → d + n ≤ min start bm.sz → ¬ Free bm d n)
      → Search bm n start (ok (none, bm))

-- The second search, after nothing was found from `start` on.
wrap_round :
    (bm : Bitmap) (n start : ℕ) {r : Outcome (Option ℕ × Bitmap)}
    → ((d : ℕ) → start ≤ d → d + n ≤ bm.sz → ¬ Free bm d n)
    → Answer bm 0 (min start bm.sz) n r
    → Search bm n start r
wrap_round bm n start nothing (found {c} low high free first u) =
    claimed (omega arith) (inr (omega arith)) free u (λ d p q f. absurd (nothing d p q f))
wrap_round bm n start nothing (full nothing') =
    exhausted nothing (λ d p. nothing' d (omega arith) p)

first_pass :
    (bm : Bitmap) (n start : ℕ) {r : Outcome (Option ℕ × Bitmap)}
    → Answer bm start (min bm.sz bm.sz) n r
    → Answer bm 0 (min start bm.sz) n (allocate_range bm 0 start n)
    → Search bm n start (
        r >>= λ (first, bm'). elim first [
          | some c ↦ ok (some c, bm')
          | none ↦ allocate_range bm' 0 start n
        ])
first_pass bm n start (found {c} low high free first u) second =
    claimed (omega arith) (inl low) free u λ d p q f. (
      low,
      elim (Bool-cases (ltb d c)) [
        | inl b ↦ absurd (first d p (ltb→lt _ _ b) f)
        | inr b ↦ ltb→le _ _ b
      ],
    )
first_pass bm n start (full nothing) second =
    wrap_round bm n start (λ d p q. nothing d p (omega arith)) second

-- On a valid bitmap, for a positive n, the search never faults: it sets and returns a run of n clear
-- bits that does not go across start_at, the first one from start_at on if there is one, or returns -1
-- with nothing changed when there is no such run.
pub find_and_set_multiple-Search :
    (bm : Bitmap) (n start : ℕ)
    → IsValid bm
    → 0 < n
    → Search bm n start (find_and_set_multiple bm n start)
unfolding find_and_set_multiple
find_and_set_multiple-Search bm n start v pos =
    first_pass bm n start (allocate_range-Answer bm start bm.sz n v pos)
      (allocate_range-Answer bm 0 start n v pos)

-- The bits from `c` up to `c + n` are the only clear ones, and `start` lies among them.
record Straddled (bm : Bitmap) (n start c : ℕ) : Type 0 where
  below : c < start
  above : start < c + n
  only : (i : ℕ) → i < bm.sz → bit bm i ≡ not (between c (c + n) i)

Straddled-not-Free :
    (bm : Bitmap) (n start c d : ℕ)
    → Straddled bm n start c
    → d + n ≤ bm.sz
    → (start ≤ d) ⊎ (d + n ≤ start)
    → ¬ Free bm d n
Straddled-not-Free bm n start c d s fits (inl p) free =
    ground (arith, s.below, s.above, s.only (d + n - 1), free (d + n - 1))
Straddled-not-Free bm n start c d s fits (inr p) free =
    ground (arith, s.below, s.above, s.only d, free d)

give_up :
    (bm : Bitmap) (n start c : ℕ) {r : Outcome (Option ℕ × Bitmap)}
    → Straddled bm n start c
    → Search bm n start r
    → r ≡ ok (none, bm)
give_up bm n start c s (claimed fits side free u first) =
    absurd (Straddled-not-Free bm n start c _ s fits side free)
give_up bm n start c s (exhausted _ _) = refl

-- On a valid bitmap whose only clear bits are one run of n with start_at inside it, the search for n
-- bits answers -1.
pub find_and_set_multiple-straddled :
    (bm : Bitmap) (n start c : ℕ)
    → IsValid bm
    → c < start
    → start < c + n
    → ((i : ℕ) → i < bm.sz → bit bm i ≡ not (between c (c + n) i))
    → find_and_set_multiple bm n start ≡ ok (none, bm)
find_and_set_multiple-straddled bm n start c v below above only =
    give_up bm n start c (record { below = below; above = above; only = only })
      (find_and_set_multiple-Search bm n start v (omega arith))

-- find_and_set on a valid bitmap takes the first clear bit of the whole bitmap, or answers -1 if all
-- are set, whatever start_at is.
pub find_and_set-Search :
    (bm : Bitmap) (start_at : ℕ) → IsValid bm → Search bm 1 0 (find_and_set bm start_at)
unfolding find_and_set
find_and_set-Search bm start_at v = find_and_set_multiple-Search bm 1 0 v (omega arith)
