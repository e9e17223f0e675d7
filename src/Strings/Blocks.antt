-- ===== src/Strings/Blocks.antt =====
-- The bytes of strings in their blocks: kernel/src/util/storage.hh, String.
use neptun_os.Base.{
  ℕ, zero, suc, ◌+◌, ◌-◌, ◌*◌, ◌/◌, ◌%◌, ◌≤◌, ◌<◌, ◌≡◌, refl, ap, ◌∙◌, sym, true, false, none, some,
  ◌||◌, [], ◌∷◌, ◌++◌, ok, leb, ◌==◌, if◌then◌else◌, length, length-append, get_elem?,
  get_elem?-append, ltb, inl, inr, Bool-cases, arith,
}
use neptun_os.Bits.{u64_mod}
use neptun_os.Text.{Bytes}
use neptun_os.Text.Compare.{NoZero}
use neptun_os.Vector.{store}
use neptun_os.Vector.Laws.{Holds}
use neptun_os.Vector.Whole.{with_capacity}
use neptun_os.Strings.{String, copy_bytes}

-- The bytes of the string, none of them 0, and a terminator inside the block.
pub record IsString (s : String) (cs : Bytes) : Type 0 where
  pub chars : Holds s cs
  pub room : s.size < s.capacity
  pub ended : s.cell s.size ≡ some 0
  pub no_zero : NoZero cs

-- What copying `cs` to place `i` leaves.
pub record Copied (s s' : String) (i : ℕ) (cs : Bytes) : Type 0 where
  pub null : s'.null ≡ s.null
  pub count : s'.count ≡ s.count
  pub size : s'.size ≡ s.size
  pub capacity : s'.capacity ≡ s.capacity
  pub written : (j : ℕ) → j < length cs → s'.cell (i + j) ≡ get_elem? cs j
  pub before : (j : ℕ) → j < i → s'.cell j ≡ s.cell j

pub copy_bytes-Copied :
    (cs behind : Bytes) (i : ℕ) (s : String)
    → s.null ≡ false
    → i + length cs ≤ s.count
    → (s' : String) × (copy_bytes (length cs) i (cs ++ behind) s ≡ ok s') × Copied s s' i cs
unfolding copy_bytes store
copy_bytes-Copied [] behind i s live fits = (
  s,
  refl,
  record {
    null = refl;
    count = refl;
    size = refl;
    capacity = refl;
    written = λ j h. absurd (omega (arith, h));
    before = λ j h. refl;
  },
)
copy_bytes-Copied (c ∷ cs) behind i s live fits =
    let inside : (s.null || leb s.count i) ≡ false = ground arith in
    let s1 : String = record s { cell = λ j. if j == i then some c else s.cell j } in
    let (s', e, k) = copy_bytes-Copied cs behind (i + 1) s1 live (omega arith) in
    (
      s',
      rw inside e,
      record {
        null = k.null;
        count = k.count;
        size = k.size;
        capacity = k.capacity;
        written = written s' c cs i s1 k (ground arith);
        before = λ j h. k.before j (omega arith) ∙ ground arith;
      },
    )
  where
    written :
        (s' : String) (c : ℕ) (cs : Bytes) (i : ℕ) (s1 : String)
        → Copied s1 s' (i + 1) cs
        → s1.cell i ≡ some c
        → (j : ℕ) → j < length (c ∷ cs)
        → s'.cell (i + j) ≡ get_elem? (c ∷ cs) j
    written s' c cs i s1 k here zero h = ap s'.cell (omega arith) ∙ k.before i (omega arith) ∙ here
    written s' c cs i s1 k here (suc j) h =
        ap s'.cell (omega arith) ∙ k.written j (omega (arith, h))

pub NoZero-append : (cs ds : Bytes) → NoZero cs → NoZero ds → NoZero (cs ++ ds)
NoZero-append [] ds n m = m
NoZero-append (c ∷ cs) ds n m = (n.0, NoZero-append cs ds n.1 m)

-- Where the bytes of `cs` stand and then a 0, behind those of `old` that were there.
pub IsString-store :
    (s s' : String) (old cs : Bytes)
    → Holds s old
    → NoZero (old ++ cs)
    → Copied s s' (length old) cs
    → s.null ≡ false
    → length old + length cs < s.capacity
    → (t : String) × (store (length old + length cs) 0 (record s' { size = length old + length cs })
        ≡ ok t)
      × IsString t (old ++ cs)
unfolding store
IsString-store s s' old cs h n k live room =
    let m : ℕ = length old + length cs in
    let size : length (old ++ cs) ≡ m = length-append old cs in
    let inside : (s'.null || leb s'.count m) ≡ false = ground (arith, k.null, k.count, h.block) in
    (
      record s' { size = m; cell = λ j. if j == m then some 0 else s'.cell j },
      rw inside refl,
      record {
        chars = record {
          sized = sym size;
          room = omega (arith, k.capacity, room);
          block = k.count ∙ h.block ∙ sym k.capacity;
          null_empty = λ e. cc (k.null, live, e);
          cells = λ i p.
              let other : (i == m) ≡ false = ground arith in
              rw other (cell i p ∙ sym (get_elem?-append old cs i));
        };
        room = omega (arith, k.capacity);
        ended = let self : (m == m) ≡ true = ground arith in rw self refl;
        no_zero = n;
      },
    )
  where
    cell :
        (i : ℕ)
        → i < length old + length cs
        → s'.cell i
          ≡ (if ltb i (length old) then get_elem? old i else get_elem? cs (i - length old))
    cell i p = elim (Bool-cases (ltb i (length old))) [
      | inl low ↦
          rw low (k.before i (ground (arith, low)) ∙ h.cells i (ground (arith, low, h.sized)))
      | inr high ↦
          let place : length old + (i - length old) ≡ i = ground (arith, high) in
          rw high (ap s'.cell (sym place) ∙ k.written (i - length old) (ground (arith, high)))
    ]

-- The block of a new string.
unfoldable pub block : (n size : ℕ) → String
block n size = record { null = false; count = n; cell = λ i. none; size = size; capacity = n }

pub with_capacity-block :
    (n size : ℕ)
    → 0 < n
    → n < u64_mod
    → ◌≡◌ {A = String} (record (with_capacity 1 n) { size = size }) (block n size)
unfolding with_capacity block
with_capacity-block n size some_room fits =
    let live : (n == 0) ≡ false = ground arith in
    let bytes : n * 1 % u64_mod ≡ n = omega arith in
    let cells : n / 1 ≡ n = omega arith in rw (live, bytes, live, cells) refl
