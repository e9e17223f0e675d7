-- ===== src/Heap/Sums.antt =====
-- Sums over the chain of links, and what a walk has found.
use neptun_os.Base.{
  ℕ, ◌+◌, ◌≤◌, ◌<◌, ◌≡◌, ◌∙◌, refl, Bool, true, false, ◌&&◌, not, some, List, [], ◌∷◌, ◌++◌, arith,
  leb, ltb, if◌then◌else◌, inl, inr, Bool-cases,
}
use mathlib.Core.Path.{subst}
use neptun_os.Heap.{Link}
use neptun_os.Heap.Links.{Cursor, rejoin, seek}

abbrev pub sum_of : (Link → ℕ) → List Link → ℕ
sum_of f [] = 0
sum_of f (l ∷ links) = f l + sum_of f links

-- the bytes that the links describe
abbrev pub total : List Link → ℕ
total = sum_of (λ l. l.length)

pub sum_of-rejoin :
    (f : Link → ℕ) (before rest : List Link)
    → sum_of f (rejoin before rest) ≡ sum_of f before + sum_of f rest
unfolding rejoin
sum_of-rejoin f [] rest = omega arith
sum_of-rejoin f (l ∷ before) rest = omega (arith, sum_of-rejoin f before (l ∷ rest))

pub sum_of-append :
    (f : Link → ℕ) (xs ys : List Link) → sum_of f (xs ++ ys) ≡ sum_of f xs + sum_of f ys
sum_of-append f [] ys = omega arith
sum_of-append f (l ∷ xs) ys = omega (arith, sum_of-append f xs ys)

-- The cursor `c` stands in the chain `links`, which begins at `base`, at a link where `stop` holds.
pub record StandsIn (links : List Link) (base : ℕ) (stop : Link → ℕ → Bool) (c : Cursor)
    : Type 0 where
  pub chain : rejoin c.before (c.link ∷ c.after) ≡ links
  pub at : c.address ≡ base + total c.before
  pub stops : stop c.link c.address ≡ true

-- A walk that stops has found such a place.
seek-StandsIn_from :
    (stop : Link → ℕ → Bool) (before rest : List Link) (addr base : ℕ) (c : Cursor)
    → addr ≡ base + total before
    → seek stop before addr rest ≡ some c
    → StandsIn (rejoin before rest) base stop c
unfolding seek rejoin
seek-StandsIn_from stop before [] addr base c at e = cc
seek-StandsIn_from stop before (l ∷ rest) addr base c at e = elim (Bool-cases (stop l addr)) [
  | inl hit ↦
      let here : record { before = before; link = l; after = rest; address = addr } ≡ c =
        ground arith in
      subst (StandsIn (rejoin before (l ∷ rest)) base stop) here
        (record { chain = refl; at = at; stops = hit })
  | inr miss ↦
      seek-StandsIn_from stop (l ∷ before) rest (addr + l.length) base c (omega arith)
        (rw (miss, seek) at e)
]

pub seek-StandsIn :
    (stop : Link → ℕ → Bool) (links : List Link) (base : ℕ) (c : Cursor)
    → seek stop [] base links ≡ some c
    → StandsIn links base stop c
unfolding rejoin
seek-StandsIn stop links base c e = seek-StandsIn_from stop [] links base base c (omega arith) e

-- Does some link, at its address, pass the test?
unfoldable pub any_at : (Link → ℕ → Bool) → ℕ → List Link → Bool
any_at stop addr [] = false
any_at stop addr (l ∷ links) = if stop l addr then true else any_at stop (addr + l.length) links

-- Then a walk stops.
pub seek_of_any_at :
    (stop : Link → ℕ → Bool) (before links : List Link) (addr : ℕ)
    → any_at stop addr links ≡ true
    → (c : Cursor) × (seek stop before addr links ≡ some c)
unfolding any_at seek
seek_of_any_at stop before [] addr h = cc
seek_of_any_at stop before (l ∷ links) addr h = elim (Bool-cases (stop l addr)) [
  | inl hit ↦ (record { before = before; link = l; after = links; address = addr }, rw (hit, seek))
  | inr miss ↦
      let (c, e) =
        seek_of_any_at stop (l ∷ before) links (addr + l.length) (rw (miss, any_at) at h) in
      (c, rw (miss, seek) e)
]

-- Is the byte at `x` in use?
abbrev pub used_at : List Link → ℕ → ℕ → Bool
used_at [] addr x = false
used_at (l ∷ links) addr x =
    if ltb x (addr + l.length) then leb addr x && not l.free else used_at links (addr + l.length) x

-- A change of the bytes in `range` ahead of the cursor is that change in the whole chain.
pub used_at-rejoin :
    (before rest rest' : List Link) (base addr : ℕ) (range : ℕ → Bool) (v : Bool)
    → addr ≡ base + total before
    → ((x : ℕ) → range x ≡ true → addr ≤ x)
    → ((x : ℕ) → used_at rest' addr x ≡ (if range x then v else used_at rest addr x))
    → (x : ℕ)
    → used_at (rejoin before rest') base x
      ≡ (if range x then v else used_at (rejoin before rest) base x)
unfolding rejoin
used_at-rejoin [] rest rest' base addr range v at ahead change x =
    let e : addr ≡ base = omega arith in rw (← e) (change x)
used_at-rejoin (l ∷ before) rest rest' base addr range v at ahead change x =
    used_at-rejoin before (l ∷ rest) (l ∷ rest') base (base + total before) range v refl
      (λ x r. omega (arith, ahead x r)) widened x
  where
    widened :
        (x : ℕ)
        → used_at (l ∷ rest') (base + total before) x
          ≡ (if range x then v else used_at (l ∷ rest) (base + total before) x)
    widened x =
        let e : base + total before + l.length ≡ addr = omega arith in
        rw e (elim (Bool-cases (ltb x addr)) [
          | inl passed ↦ ground (arith, ahead x)
          | inr reached ↦ rw reached (change x)
        ])

-- Below the address at which the links begin nothing is in use.
pub used_at-below : (links : List Link) (addr x : ℕ) → x < addr → used_at links addr x ≡ false
used_at-below [] addr x h = refl
used_at-below (l ∷ links) addr x h = ground arith

-- From the cursor on, the links passed do not matter.
pub used_at-ahead :
    (before rest : List Link) (base addr x : ℕ)
    → addr ≡ base + total before
    → addr ≤ x
    → used_at (rejoin before rest) base x ≡ used_at rest addr x
unfolding rejoin
used_at-ahead [] rest base addr x at h = let e : addr ≡ base = omega arith in rw e refl
used_at-ahead (l ∷ before) rest base addr x at h =
    let e : base + total before + l.length ≡ addr = omega arith in
    used_at-ahead before (l ∷ rest) base (base + total before) x refl (omega arith)
    ∙ rw e (ground arith)
