-- ===== src/Paths.antt =====
-- Paths and mount points, kernel/src/fs/fs.cc. A path is the list of the bytes from its pointer on.
-- `path_sanitize` and `path_join` fill a String, as Strings has it; the path of a mount point is the list of the
-- bytes without the terminator.
pub mod Clean
pub mod Overruns
pub mod Mounts
pub mod Basename
use neptun_os.Base.{
  ℕ, zero, suc, ◌+◌, ◌-◌, ◌%◌, ◌^◌, Bool, true, false, ◌&&◌, not, Option, none, some, List, [], ◌∷◌,
  ◌++◌, Outcome, ok, fatal, ◌>>=◌, leb, ltb, ◌==◌, if◌then◌else◌, length, get_elem?,
}
use neptun_os.Bits.{u64_mod}
use neptun_os.Text.{Bytes, strlen, strncmp}
use neptun_os.Vector.{reserve, index}
use neptun_os.Vector.Whole.{empty}
use neptun_os.Strings.{String, from_chars, push_char, append}

-- The loop of `path_sanitize`; `push` is `ret += c`, and `skipping` is whether it is in the inner loop.
unfoldable pub sanitize_from {ℓ} :
    {S : Type ℓ} (push : ℕ → S → Outcome S) (skipping : Bool) → Bytes → (ret : S) → Outcome S
sanitize_from push skipping [] ret = fatal
sanitize_from push skipping (c ∷ p) ret = elim (skipping && (c == b'/')) [
  | true ↦ sanitize_from push true p ret
  | false ↦ elim (c == 0) [
    | true ↦ ok ret
    | false ↦ push c ret >>= sanitize_from push (c == b'/') p
  ]
]

-- `in_place` is the heap's answer to each request to grow the block of `ret`.
unfoldable pub path_sanitize : (in_place : Bool) → Bytes → Outcome String
path_sanitize in_place p = do
  len ← strlen p
  ret ← reserve 1 in_place len empty
  sanitize_from (push_char in_place) false p (record ret { size = 0 })

-- The bytes from a cell on, at most `n`.
unfoldable pub cells_from : (n i : ℕ) → String → Bytes
cells_from zero i s = []
cells_from (suc n) i s = elim (s.cell i) [ none ↦ [] | some c ↦ c ∷ cells_from n (i + 1) s ]

-- What `c_str()` points to.
unfoldable pub c_str : String → Bytes
c_str s = if s.null then 0 ∷ [] else cells_from s.count 0 s

-- `in_place` is the heap's answer to each request to grow the block; `ret[ret.size - 1]` of an empty string is
-- out of bounds.
unfoldable pub path_join : (in_place : Bool) → (path1 path2 : Bytes) → Outcome String
path_join in_place path1 path2 = do
  ret ← from_chars path1
  last ← index ((ret.size + u64_mod - 1) % u64_mod) ret
  ret1 ← if not (last == b'/') then push_char in_place b'/' ret else ok ret
  append in_place path2 ret1

-- The test of a mount point in the loop of `fs_find_mnt`: `!strncmp(p, san.c_str(), len)` for one whose path
-- is not longer than `san`; `size` is `san.size`, and `san` the bytes at `san.c_str()`.
unfoldable pub is_mount_of : (p : Bytes) (size : ℕ) (san mount : Bytes) → Outcome Bool
is_mount_of p size san mount = elim (ltb size (length mount)) [
  | true ↦ ok false
  | false ↦ strncmp p san (length mount % 2 ^ 32) >>= λ d. ok (d == 0)
]

unfoldable pub closest_from :
    (p : Bytes) (size : ℕ) (san closest : Bytes) → List Bytes → Outcome Bytes
closest_from p size san closest [] = ok closest
closest_from p size san closest (m ∷ ms) = is_mount_of p size san m >>= λ hit.
    closest_from p size san (if hit && ltb (length closest) (length m) then m else closest) ms

-- The path of the mount point for `p`.
unfoldable pub fs_find_mnt : (in_place : Bool) → Bytes → (mountpts : List Bytes) → Outcome Bytes
fs_find_mnt in_place p [] = path_sanitize in_place p >>= λ san. fatal
fs_find_mnt in_place p (m ∷ ms) =
    path_sanitize in_place p >>= λ san. closest_from p san.size (c_str san) m (m ∷ ms)

-- `path2`: what the file system gets to see of a path that is mounted at `mount`.
unfoldable pub below_mount : (p mount : Bytes) → Outcome Bytes
below_mount p [] = elim p [
  | [] ↦ fatal
  | c ∷ rest ↦ if c == 0 then ok (b'/' ∷ 0 ∷ []) else ok (c ∷ rest)
]
below_mount [] (m ∷ mount) = fatal
below_mount (c ∷ p) (m ∷ mount) = below_mount p mount

-- The loop `while (*basename != '/' && basename > path)`; both places are counted from `path` on.
unfoldable pub back : (path : Bytes) → (basename : ℕ) → Outcome ℕ
back path zero = elim (get_elem? path 0) [ none ↦ fatal | some c ↦ ok 0 ]
back path (suc i) = elim (get_elem? path (suc i)) [
  | none ↦ fatal
  | some c ↦ elim (c == b'/') [ true ↦ ok (suc i) | false ↦ back path i ]
]

-- The bytes from a place on, `basename + n`.
unfoldable pub skip_bytes : ℕ → Bytes → Bytes
skip_bytes zero p = p
skip_bytes (suc n) [] = []
skip_bytes (suc n) (c ∷ p) = skip_bytes n p

-- The name with what the call leaves behind it: the loop up to a slash or the end, and `basename[len] = 0`.
unfoldable pub cut : Bytes → Outcome Bytes
cut [] = fatal
cut (c ∷ p) = elim (c == 0) [
  | true ↦ ok (c ∷ p)
  | false ↦ elim (c == b'/') [ true ↦ ok (0 ∷ p) | false ↦ cut p >>= λ p'. ok (c ∷ p') ]
]

-- `*p = 0` at a place
unfoldable pub end_at : ℕ → Bytes → Bytes
end_at n [] = []
end_at zero (c ∷ p) = 0 ∷ p
end_at (suc n) (c ∷ p) = c ∷ end_at n p

-- From `while (*basename != '/' ...)` on: what the returned pointer points to.
unfoldable pub name_from : (path : Bytes) → (basename : ℕ) → Outcome Bytes
name_from path basename = back path basename >>= λ b. elim (get_elem? path b) [
  | none ↦ fatal
  | some c ↦ cut (skip_bytes (if c == b'/' then b + 1 else b) path)
]

-- A pointer in front of the path is a fault.
unfoldable pub path_basename : Bytes → Outcome Bytes
path_basename path = strlen path >>= λ len. elim (len == 0) [
  | true ↦ fatal
  | false ↦ elim (get_elem? path (len - 1)) [
    | none ↦ fatal
    | some c ↦ elim (c == b'/') [
      | false ↦ name_from path (len - 1)
      | true ↦ if len == 1 then fatal else name_from (end_at (len - 1) path) (len - 2)
    ]
  ]
]
