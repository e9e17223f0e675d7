-- ===== src/Tests/OnKernel.antt =====
-- Page tables, hash maps and strings.
use neptun_os.Base.{
  ℕ, zero, suc, ◌+◌, ◌-◌, ◌^◌, ◌≡◌, refl, ap, Bool, true, false, ◌&&◌, Option, none, some, List, [],
  ◌∷◌, ◌++◌, ok, arith, get_elem?, ◌==◌, if◌then◌else◌,
}
use neptun_os.LinkedList.{LinkedList}
use neptun_os.LinkedList.Ring.{Ring}
use neptun_os.HashMap.{Pair, HashMap, at_key, hash_number, hash_string}
use neptun_os.HashMap.Buckets.{IsMap, elements}
use neptun_os.HashMap.Laws.{updated, at_key-insert}
use neptun_os.Text.{Bytes}
use neptun_os.Strings.{String, append}
use neptun_os.Strings.Blocks.{IsString}
use neptun_os.Strings.Laws.{append-IsString}
use neptun_os.Paging.{Tables, descend, map_page, paging_lookup}
use neptun_os.Paging.Walk.{paging_lookup-map_page}

-- Tables of which only the first is there, at the first page of the higher half.
abbrev root : ℕ
root = 0xffff800000000000

abbrev bare : Tables
bare = record {
  word = λ t i. 0;
  pages = 0xffff800000001000 ∷ 0xffff800000002000 ∷ 0xffff800000003000 ∷ [];
}

-- The tables after one, two and three steps down for the address 0xffff900000005123.
abbrev step : (table i page : ℕ) → List ℕ → Tables → Tables
step table i page rest m = record {
  word = λ t j.
      if t == table && j == i then page - root + 3 else (if t == page then 0 else m.word t j);
  pages = rest;
}

abbrev bare1 : Tables
bare1 = step root 288 0xffff800000001000 (0xffff800000002000 ∷ 0xffff800000003000 ∷ []) bare

abbrev bare2 : Tables
bare2 = step 0xffff800000001000 0 0xffff800000002000 (0xffff800000003000 ∷ []) bare1

abbrev bare3 : Tables
bare3 = step 0xffff800000002000 0 0xffff800000003000 [] bare2

paging_lookup-map_page_example :
    (m' : Tables) × (map_page root 0xffff900000005123 0x7654321 (2 ^ 32 + 3) 0 bare ≡ ok m')
    × (paging_lookup root 0xffff900000005123 m' ≡ some 0x7654123)
unfolding descend
paging_lookup-map_page_example =
    paging_lookup-map_page root 0xffff900000005123 0x7654321 (2 ^ 32 + 3) 0 bare bare1 bare2 bare3
      0xffff800000001000 0xffff800000002000 0xffff800000003000 refl refl refl refl
      (refl, (refl, (refl, tt))) (omega arith) refl refl refl refl refl refl (omega arith)
      (omega arith) (omega arith) (omega arith) (omega arith) (omega arith)

-- A map of two buckets, of which the second holds the key 3.
abbrev three : Pair ℕ ℕ
three = record { key = 3; value = 30 }

abbrev no_pair : LinkedList (Pair ℕ ℕ)
no_pair = record { store = λ p. none; first = 0; size = 0 }

abbrev one_pair : LinkedList (Pair ℕ ℕ)
one_pair = record {
  store = λ p.
      if p == 10 then some (record { prev = 10; next = 10; value = three; last = true }) else none;
  first = 10;
  size = 1;
}

abbrev two_buckets : List (LinkedList (Pair ℕ ℕ))
two_buckets = no_pair ∷ one_pair ∷ []

abbrev map : HashMap ℕ ℕ
map = record {
  entries = record {
    null = false;
    count = 2;
    cell = λ i. if i == 0 then some no_pair else if i == 1 then some one_pair else none;
    size = 2;
    capacity = 2;
  };
  size = 2;
}

abbrev held : ℕ → Option (Pair ℕ ℕ)
held i = if i == 1 then some three else none

one_pair-cells :
    (i : ℕ) (x : Pair ℕ ℕ)
    → get_elem? (three ∷ []) i ≡ some x
    → one_pair.store 10 ≡ some (record { prev = 10; next = 10; value = x; last = i == 0 })
one_pair-cells zero x e =
    ap
      (λ o. elim o [
        | none ↦ none
        | some w ↦ some (record { prev = 10; next = 10; value = w; last = true })
      ])
      e
one_pair-cells (suc i) x e = cc

buckets-Ring :
    (i : ℕ) (b : LinkedList (Pair ℕ ℕ))
    → get_elem? two_buckets i ≡ some b
    → Ring b (elements (held i)) (λ j. 10) 0
buckets-Ring zero b e =
    let there : no_pair ≡ b = ap (λ o. elim o [ none ↦ no_pair | some x ↦ x ]) e in
    rw (← there) (record {
      sized = refl;
      head = refl;
      linked = record {
        nonzero = λ i h. absurd (omega (arith, h));
        apart = λ i j h. absurd (omega (arith, h));
        cells = λ i x e. cc;
      };
    })
buckets-Ring (suc zero) b e =
    let there : one_pair ≡ b = ap (λ o. elim o [ none ↦ no_pair | some x ↦ x ]) e in
    rw (← there) (record {
      sized = refl;
      head = refl;
      linked = record {
        nonzero = λ i h. omega arith;
        apart = λ i j h h' e. omega (arith, h, h');
        cells = one_pair-cells;
      };
    })
buckets-Ring (suc (suc i)) b e = cc

map-IsMap : IsMap map two_buckets held (λ i. 10)
map-IsMap = record {
  entries = record {
    sized = refl;
    room = omega arith;
    block = refl;
    null_empty = λ e. cc;
    cells = λ i p. ground (arith, p);
  };
  sized = refl;
  buckets = buckets-Ring;
}

abbrev equal_keys : ℕ → ℕ → Bool
equal_keys a b = a == b

at_key-insert_example :
    (m' : HashMap ℕ ℕ) × (bs' : List (LinkedList (Pair ℕ ℕ))) × (at_key equal_keys hash_number 20 0
        4 map
      ≡ ok ((0, 20), m'))
    × IsMap m' bs' (updated 0 (some (record { key = 4; value = 0 })) held) (updated 0 20 (λ i. 10))
unfolding hash_number
at_key-insert_example =
    at_key-insert equal_keys hash_number 4 0 map two_buckets held (λ i. 10) map-IsMap refl
      (omega arith) 20 0 refl (omega arith)

-- "ab" in a block of three bytes
abbrev letters : Bytes
letters = 0x61 ∷ 0x62 ∷ []

abbrev word : String
word = record {
  null = false;
  count = 3;
  cell = λ i. if i == 2 then some 0 else get_elem? letters i;
  size = 2;
  capacity = 3;
}

word-IsString : IsString word letters
word-IsString = record {
  chars = record {
    sized = refl;
    room = omega arith;
    block = refl;
    null_empty = λ e. cc;
    cells = λ i p. ground (arith, p);
  };
  room = omega arith;
  ended = refl;
  no_zero = (omega arith, (omega arith, tt));
}

append-IsString_example :
    (t : String) × (append false (0x63 ∷ 0 ∷ []) word ≡ ok t) × IsString t (letters ++ 0x63 ∷ [])
append-IsString_example =
    append-IsString false word letters (0x63 ∷ []) [] word-IsString (omega arith, tt) (omega arith)
      (omega arith)

-- The same sum as 0x61 + 53 * 0x62.
hash_run : hash_string letters 1000 ≡ ok 291
unfolding hash_string
hash_run = refl
