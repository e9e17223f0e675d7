-- ===== src/Heap/Links.antt =====
-- The chain of links: walks, `create_link`, `delete_link`, `merge` and `allocate_into_free`.
use neptun_os.Base.{
  ℕ, ◌+◌, ◌-◌, Bool, true, false, ◌&&◌, not, Option, none, some, List, [], ◌∷◌, Outcome, ok, fatal,
  ◌>>=◌, ltb, ◌==◌, if◌then◌else◌,
}
use neptun_os.Bitmap.{Bitmap, set_bit, find_and_set}
use neptun_os.Heap.{Link}

-- A walk that has stopped: the links passed, nearest first, the link it stands at, the links ahead, and
-- the address at which the memory of that link begins.
pub record Cursor : Type 0 where
  pub before : List Link
  pub link : Link
  pub after : List Link
  pub address : ℕ

-- The passed links put back in front.
unfoldable pub rejoin : List Link → List Link → List Link
rejoin [] rest = rest
rejoin (l ∷ before) rest = rejoin before (l ∷ rest)

-- `while (i) { if (stop) break; addr += i->length; i = i->next; }`
unfoldable pub seek : (Link → ℕ → Bool) → List Link → ℕ → List Link → Option Cursor
seek stop before addr [] = none
seek stop before addr (l ∷ rest) = elim (stop l addr) [
  | true ↦ some (record { before = before; link = l; after = rest; address = addr })
  | false ↦ seek stop (l ∷ before) (addr + l.length) rest
]

-- The place for a new link, and the bitmap with it taken.
unfoldable pub create_link : Bitmap → Outcome (ℕ × Bitmap)
create_link bm =
    find_and_set bm 0 >>= λ (idx, bm'). elim idx [ none ↦ fatal | some i ↦ ok (i, bm') ]

-- The link has been taken out of the chain; its place is given back.
unfoldable pub delete_link : Link → Bitmap → Outcome Bitmap
delete_link l bm = set_bit bm l.index false

-- Merging with the link after it: the link, and what is ahead of it now.
unfoldable pub merge_next : Link → List Link → Bitmap → Outcome (Link × List Link × Bitmap)
unfolding delete_link
merge_next l [] bm = ok (l, [], bm)
merge_next l (old ∷ after) bm =
    if l.free && old.free
    then (delete_link old bm >>= λ bm'.
        ok (record l { length = l.length + old.length }, after, bm'))
    else ok (l, old ∷ after, bm)

-- Merging with the link before it: the chain as it is then.
unfoldable pub merge_prev : List Link → Link → List Link → Bitmap → Outcome (List Link × Bitmap)
unfolding delete_link rejoin
merge_prev [] l after bm = ok (l ∷ after, bm)
merge_prev (prev ∷ before) l after bm =
    if l.free && prev.free
    then (delete_link l bm >>= λ bm'.
        ok (rejoin before (record prev { length = prev.length + l.length } ∷ after), bm'))
    else ok (rejoin (prev ∷ before) (l ∷ after), bm)

unfoldable pub merge : List Link → Link → List Link → Bitmap → Outcome (List Link × Bitmap)
merge before l after bm = do
  (l', after', bm') ← merge_next l after bm
  merge_prev before l' after' bm'

-- The taken link, and the free one that is put behind it if something is left.
unfoldable pub allocate_into_free :
    Link → (size additional : ℕ) → Bitmap → Outcome (Link × List Link × Bitmap)
unfolding create_link
allocate_into_free current size additional bm =
    if not current.free
    then fatal
    else if ltb current.length size
    then fatal
    else if ltb (current.length - size) additional
    then fatal
    else let rem = current.length - size - additional in
      if rem == 0
      then ok (record current { free = false }, [], bm)
      else (create_link bm >>= λ (i, bm'). ok (
        record current { free = false; length = size },
        record { index = i; file = 0; line = 0; length = rem; free = true } ∷ [],
        bm',
      ))
