-- ===== src/Tests/OnBitmap.antt =====
-- Bitmaps of Bitmap.
use neptun_os.Base.{ℕ, ◌-◌, ◌%◌, ◌^◌, ◌<◌, ◌≡◌, not, [], ◌∷◌, arith}
use neptun_os.Bits.{testbit-ones}
use neptun_os.Bitmap.{Bitmap, find_and_set_multiple}
use neptun_os.Bitmap.View.{bit}
use neptun_os.Bitmap.Range.{between}
use neptun_os.Bitmap.Alloc.{Search, find_and_set_multiple-Search}

-- 128 bits, of which the first four are set
abbrev some_set : Bitmap
some_set = record { buffer = 15 ∷ 0 ∷ []; sz = 128 }

-- 64 bits, all set but 60 to 63
abbrev last_clear : Bitmap
last_clear = record { buffer = (2 ^ 60 - 1) ∷ []; sz = 64 }

first_word : (i : ℕ) → i < 64 → bit last_clear i ≡ not (between 60 64 i)
first_word i h = ground (arith, testbit-ones 60 (i % 64))

find_and_set_multiple-Search_example : Search some_set 7 100 (find_and_set_multiple some_set 7 100)
find_and_set_multiple-Search_example =
    find_and_set_multiple-Search some_set 7 100 (omega arith) (omega arith)
