-- ===== src/Heap/Memory.antt =====
-- Bytes: `memset`, `memcpy` and `memchk` of kernel/src/util/mem.cc, as the heap uses them, and the
-- constants of the redzones (kernel/src/config.hh).
use neptun_os.Base.{
  ℕ, zero, suc, ◌+◌, ◌-◌, Bool, false, ◌&&◌, ◌||◌, not, leb, ltb, ◌==◌, if◌then◌else◌,
}

-- `VMM_REDZONE_SIZE`
abbrev pub redzone_size : ℕ
redzone_size = 64

-- `VMM_REDZONE_MAGIC`
abbrev pub redzone_magic : ℕ
redzone_magic = 0xbc

-- `VMM_MIN_ALLOC`
abbrev pub min_alloc : ℕ
min_alloc = 16

-- memset(a, c, count)
unfoldable pub memset : (ℕ → ℕ) → (a c count : ℕ) → ℕ → ℕ
memset memory a c count x = if leb a x && ltb x (a + count) then c else memory x

-- memcpy(dest, src, count)
unfoldable pub memcpy : (ℕ → ℕ) → (dest src count : ℕ) → ℕ → ℕ
memcpy memory dest src count x =
    if leb dest x && ltb x (dest + count) then memory (src + (x - dest)) else memory x

-- memchk(a, c, count): is there another byte than `c`? The loop runs down from the last byte.
unfoldable pub memchk : (ℕ → ℕ) → (a c count : ℕ) → Bool
memchk memory a c zero = false
memchk memory a c (suc count) = not (memory (a + count) == c) || memchk memory a c count
