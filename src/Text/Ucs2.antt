-- ===== src/Text/Ucs2.antt =====
-- The conversions from UCS-2 of kernel/src/util/string.cc. The input is the list of the bytes from its
-- address on, the low byte of each unit first; the output is the memory behind `out`.
use neptun_os.Base.{
  ℕ, zero, suc, ◌+◌, ◌%◌, ◌^◌, true, false, ◌&&◌, [], ◌∷◌, Outcome, ok, fatal, ◌>>=◌, leb, ◌==◌,
  if◌then◌else◌, length, set,
}
use neptun_os.Text.{Bytes}

-- `out[i] = c`
unfoldable pub write : (i c : ℕ) → Bytes → Outcome Bytes
write i c out = if leb (length out) i then fatal else ok (set out i c)

-- The loop of `ucs2_to_asciin`: a unit loses its high byte.
unfoldable pub copy_units : (n : ℕ) → Bytes → (i : ℕ) → Bytes → Outcome Bytes
unfolding write
copy_units zero input i out = ok out
copy_units (suc n) [] i out = fatal
copy_units (suc n) (lo ∷ []) i out = fatal
copy_units (suc n) (lo ∷ hi ∷ input) i out = write i lo out >>= copy_units n input (i + 1)

unfoldable pub ucs2_to_asciin : Bytes → (i n : ℕ) → Bytes → Outcome Bytes
unfolding write copy_units
ucs2_to_asciin input i n out = write (i + n) 0 out >>= copy_units n input i

-- The loop of `ucs2_to_ascii`: the count and the output.
unfoldable pub ascii_from : (count : ℕ) → Bytes → Bytes → Outcome (ℕ × Bytes)
unfolding write
ascii_from count [] out = fatal
ascii_from count (lo ∷ []) out = fatal
ascii_from count (lo ∷ hi ∷ input) out = elim (lo == 0 && hi == 0) [
  | true ↦ write count 0 out >>= λ out'. ok (count, out')
  | false ↦ write count lo out >>= ascii_from ((count + 1) % 2 ^ 32) input
]

unfoldable pub ucs2_to_ascii : Bytes → Bytes → Outcome (ℕ × Bytes)
unfolding ascii_from
ucs2_to_ascii input out = ascii_from 0 input out
