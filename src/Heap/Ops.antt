-- ===== src/Heap/Ops.antt =====
-- The methods of MemoryMgr but for `alloc_aligned`. Addresses and counters are u64 and wrap.
-- What only prints (`dump`, `info`, `print_files`, the reports of `check`) is left out; `check` ends in
-- `pause()` after such reports, which is `fatal` here.
use neptun_os.Base.{
  ℕ, suc, ◌+◌, ◌-◌, ◌%◌, Bool, true, false, ◌&&◌, not, Option, none, some, List, [], ◌∷◌, ◌++◌,
  Outcome, ok, fatal, ◌>>=◌, ◌>>◌, leb, ltb, ◌==◌, if◌then◌else◌,
}
use neptun_os.Bits.{u64_mod}
use neptun_os.Arith.{align}
use neptun_os.Heap.{Link, Heap}
use neptun_os.Heap.Links.{Cursor, rejoin, seek, delete_link, merge, allocate_into_free}
use neptun_os.Heap.Memory.{memset, memcpy, memchk, redzone_size, redzone_magic, min_alloc}

-- u64 subtraction
abbrev pub sub64 : ℕ → ℕ → ℕ
sub64 a b = (a + u64_mod - b) % u64_mod

-- a size as it is taken from the heap: rounded, with both redzones
abbrev pub padded : ℕ → ℕ
padded size = (align size min_alloc + redzone_size + redzone_size) % u64_mod

-- Both redzones of a block of `size` bytes at `address` are filled.
abbrev pub fill_redzones : (ℕ → ℕ) → (address size : ℕ) → ℕ → ℕ
fill_redzones memory address size =
    memset (memset memory address redzone_magic redzone_size) (address + size - redzone_size)
      redzone_magic redzone_size

abbrev pub fits : ℕ → Link → ℕ → Bool
fits size l addr = l.free && leb size l.length

abbrev pub starts_at : ℕ → Link → ℕ → Bool
starts_at p l addr = addr == p

-- What `alloc_nomutex` does at the link it has found.
unfoldable pub alloc_at : (size file line : ℕ) → Heap → Cursor → Outcome (ℕ × Heap)
alloc_at size file line h c = do
  (l, behind, bm') ← allocate_into_free c.link size 0 h.bm
  ok (
    (c.address + redzone_size) % u64_mod,
    record h {
      links = rejoin c.before (record l { file = file; line = line } ∷ behind ++ c.after);
      bm = bm';
      usedmem = (h.usedmem + size) % u64_mod;
      freemem = sub64 h.freemem size;
      memory = fill_redzones h.memory c.address size;
    },
  )

-- With no link that fits, `l` is null when it is read.
unfoldable pub alloc_nomutex : (size file line : ℕ) → Heap → Outcome (ℕ × Heap)
alloc_nomutex size file line h =
    if size == 0 then ok (0, h) else elim (seek (fits (padded size)) [] h.heap_base h.links) [
      | none ↦ fatal
      | some c ↦ alloc_at (padded size) file line h c
    ]

-- The link whose memory starts at `p`.
unfoldable pub find_at : ℕ → Heap → Option Cursor
find_at p h = seek (starts_at p) [] h.heap_base h.links

-- Is the block at the cursor in use, long enough, and are its redzones whole?
unfoldable pub intact : Heap → Cursor → Bool
intact h c =
    not c.link.free
    && leb (min_alloc + redzone_size + redzone_size) c.link.length
    && not (memchk h.memory c.address redzone_magic redzone_size)
    && not (memchk h.memory (c.address + c.link.length - redzone_size) redzone_magic redzone_size)

unfoldable pub check : ℕ → Heap → Outcome (Unit {0})
check p h = elim (find_at (sub64 p redzone_size) h) [
  | none ↦ fatal
  | some c ↦ if intact h c then ok tt else fatal
]

-- What `free_nomutex` does at the link it has found.
unfoldable pub free_at : Heap → Cursor → Outcome Heap
free_at h c = do
  (links', bm') ← merge c.before (record c.link { file = 0; line = 0; free = true }) c.after h.bm
  ok (record h {
    links = links';
    bm = bm';
    usedmem = sub64 h.usedmem c.link.length;
    freemem = (h.freemem + c.link.length) % u64_mod;
  })

unfoldable pub free_nomutex : ℕ → Heap → Outcome Heap
free_nomutex p h = if p == 0 then ok h else do
  check p h
  elim (find_at (sub64 p redzone_size) h) [ none ↦ fatal | some c ↦ free_at h c ]

unfoldable pub get_size : ℕ → Heap → Outcome ℕ
get_size p h = elim (find_at (sub64 p redzone_size) h) [
  | none ↦ fatal
  | some c ↦ ok (sub64 c.link.length (redzone_size + redzone_size))
]

-- The label `allocd`: the block keeps its start, and its second redzone is filled.
abbrev pub resized : (newsize file line : ℕ) → Heap → Cursor → Link → List Link → Bool × Heap
resized length file line h c l after = (
  true,
  record h {
    links = rejoin c.before (record l { file = file; line = line; length = length } ∷ after);
    memory = memset h.memory (c.address + length - redzone_size) redzone_magic redzone_size;
  },
)

-- The heap after the counters have followed the growth from `oldsize` to `newsize`.
abbrev pub grown : (newsize oldsize : ℕ) → Heap → Heap
grown newsize oldsize h = record h {
  usedmem = (h.usedmem + (newsize - oldsize)) % u64_mod;
  freemem = sub64 h.freemem (newsize - oldsize);
}

-- What `try_realloc` does at the link it has found, with what is ahead of it.
unfoldable pub grow_at : (newsize file line : ℕ) → Heap → Cursor → List Link → Outcome (Bool × Heap)
grow_at newsize file line h c [] =
    if leb newsize c.link.length
    then ok (resized c.link.length file line h c c.link [])
    else ok (false, h)
grow_at newsize file line h c (n ∷ after) =
    let oldsize = c.link.length in
    if leb newsize oldsize
    then ok (resized oldsize file line h c c.link (n ∷ after))
    else if not n.free
    then ok (false, h)
    else if n.length == newsize - oldsize
    then (delete_link n h.bm >>= λ bm'.
        ok (
          resized newsize file line (record (grown newsize oldsize h) { bm = bm' }) c c.link after))
    else if ltb (newsize - oldsize) n.length
    then ok (
        resized newsize file line (grown newsize oldsize h) c c.link
          (record n { length = n.length - (newsize - oldsize) } ∷ after))
    else ok (false, h)

-- On a null pointer the new block's address is turned into the answer `true`.
unfoldable pub try_realloc : (ptr newsize file line : ℕ) → Heap → Outcome (Bool × Heap)
try_realloc ptr newsize file line h =
    if ptr == 0
    then (alloc_nomutex newsize file line h >>= λ (p, h'). ok (not (p == 0), h'))
    else if not (ptr % 16 == 0)
    then fatal
    else elim (find_at (sub64 ptr redzone_size) h) [
      | none ↦ fatal
      | some c ↦ grow_at (padded newsize) file line h c c.after
    ]

unfoldable pub realloc : (ptr newsize file line : ℕ) → Heap → Outcome (ℕ × Heap)
realloc ptr newsize file line h = do
  (done, h1) ← try_realloc ptr newsize file line h
  if done then ok (ptr, h1) else do
    (newmem, h2) ← alloc_nomutex newsize file line h1
    oldsize ← get_size ptr h2
    h3 ← free_nomutex ptr (record h2 { memory = memcpy h2.memory newmem ptr oldsize })
    ok (newmem, h3)

unfoldable pub count_allocs : List Link → ℕ
count_allocs [] = 0
count_allocs (l ∷ links) = suc (count_allocs links)

-- `check_all`, from the link at address `a` on.
unfoldable pub check_from : Heap → ℕ → List Link → Outcome (Unit {0})
check_from h a [] = ok tt
check_from h a (l ∷ links) =
    let rest = check_from h (a + l.length) links in
    if l.free then rest else check ((a + redzone_size) % u64_mod) h >> rest
