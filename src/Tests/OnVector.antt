-- ===== src/Tests/OnVector.antt =====
-- Vectors of numbers, of 8 bytes each.
use neptun_os.Base.{ℕ, refl, false, none, List, [], ◌∷◌, arith, get_elem?, if◌then◌else◌, ltb}
use neptun_os.Vector.{Vector}
use neptun_os.Vector.Laws.{Holds}

abbrev two : List ℕ
two = 7 ∷ 9 ∷ []

-- two elements in a block for two
abbrev full : Vector ℕ
full = record {
  null = false;
  count = 2;
  cell = λ i. if ltb i 2 then get_elem? two i else none;
  size = 2;
  capacity = 2;
}

full-Holds : Holds full two
full-Holds = record {
  sized = refl;
  room = omega arith;
  block = refl;
  null_empty = λ e. cc;
  cells = λ i p. ground arith;
}
