-- ===== src/Tests/OnMemory.antt =====
-- Pages, the watermark, and the macros of Arith.
use neptun_os.Base.{zero, suc, ℕ, ◌+◌, ◌*◌, ◌≡◌, refl, false, List, [], ◌∷◌, ok, arith, length}
use neptun_os.Arith.{align, align_down, mibs2bytes, shl_int, higher_half, virtual_address}
use neptun_os.Bits.{bit_at}
use neptun_os.Bitmap.{
  set_bit, get_bit, load_word, scan, mark, allocate_range, find_and_set_multiple,
}
use neptun_os.Watermark.{Watermark, wm_allocs}
use neptun_os.Watermark.Runs.{Stacked, budget, wm_allocs-Stacked}
use neptun_os.Pmm.Init.{Entry, wm_size, last_entry, candidate, pmm_init}
use neptun_os.Pmm.Marked.{Inside}
use neptun_os.Pmm.Boot.{pages_upto, Booted, pmm_init-Booted}
use neptun_os.Pmm.{Pmm, alloc_from, pmm_alloc4g}
use neptun_os.Pmm.Laws.{IsReady, Allocated, pages, pmm_alloc4g-Allocated}

abbrev area : Watermark
area = record { cursor = 0x10000; free = 0x1000 }

wm_allocs-Stacked_example :
    (blocks : List (ℕ × ℕ)) × (wm' : Watermark) × (wm_allocs area ((40, 64) ∷ (8, 16) ∷ [])
      ≡ ok (blocks, wm'))
    × Stacked 0x10000 wm'.cursor blocks
    × (wm'.cursor + wm'.free ≡ 0x11000)
    × (length blocks ≡ 2)
wm_allocs-Stacked_example =
    wm_allocs-Stacked 64 area ((40, 64) ∷ (8, 16) ∷ [])
      ((omega arith, omega arith, omega arith), ((omega arith, omega arith, omega arith), tt))
      (omega arith) (unfold budget in omega arith)

-- 64 pages, the first of them in use
abbrev machine : Pmm
machine = record {
  usedmem = 0x1000;
  freemem = 63 * 0x1000;
  bm = record { buffer = 1 ∷ []; sz = 64 };
  locked = false;
}

machine-IsReady : IsReady machine
machine-IsReady = record {
  unlocked = refl;
  valid = omega arith;
  lower_half = omega arith;
  counted = omega arith;
}

pmm_alloc4g-Allocated_example : Allocated machine (pages 5000) (pmm_alloc4g 5000 machine)
pmm_alloc4g-Allocated_example =
    pmm_alloc4g-Allocated machine machine-IsReady 5000 (omega arith) (omega arith)

-- the machine after it has handed out two pages, and after it has handed out one more
abbrev two_taken : Pmm
two_taken = record {
  usedmem = 0x3000;
  freemem = 61 * 0x1000;
  bm = record { buffer = 7 ∷ []; sz = 64 };
  locked = false;
}

abbrev three_taken : Pmm
three_taken = record {
  usedmem = 0x4000;
  freemem = 60 * 0x1000;
  bm = record { buffer = 15 ∷ []; sz = 64 };
  locked = false;
}

first_request : pmm_alloc4g 5000 machine ≡ ok (higher_half + 0x1000, two_taken)
unfolding pmm_alloc4g alloc_from find_and_set_multiple allocate_range scan mark set_bit get_bit
    load_word bit_at align virtual_address
first_request = refl

second_request : pmm_alloc4g 4096 two_taken ≡ ok (higher_half + 0x3000, three_taken)
unfolding pmm_alloc4g alloc_from find_and_set_multiple allocate_range scan mark set_bit get_bit
    load_word bit_at align virtual_address
second_request = refl

-- a map of one usable entry of 128 MiB, behind which the firmware has a reserved one
abbrev ram : Entry
ram = record { base = 0; length = 0x8000000; kind = 0 }

abbrev rom : Entry
rom = record { base = 0xf0000000; length = 0x1000; kind = 1 }

abbrev zeros : ℕ → List ℕ
zeros zero = []
zeros (suc n) = 0 ∷ zeros n

ram-Inside : Inside 0x8000 0x8000 ram
ram-Inside = record {
  pages = unfold align in omega arith;
  aside = unfold wm_size mibs2bytes shl_int in omega arith;
}

pmm_init-Booted_example :
    (pmm : Pmm) × (wm : Watermark) × (pmm_init (λ a. zeros 512) (ram ∷ rom ∷ []) ≡ ok (pmm, wm))
    × Booted (ram ∷ rom ∷ []) (align_down (pages_upto ram) 64) ram pmm wm
unfolding align align_down
pmm_init-Booted_example =
    pmm_init-Booted (λ a. zeros 512) (ram ∷ rom ∷ []) ram ram (unfold last_entry in refl)
      (unfold candidate wm_size mibs2bytes shl_int in refl) (omega arith) (omega arith)
      (λ k. ram-Inside, (λ k. absurd (omega (arith, k)), tt))
