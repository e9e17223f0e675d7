-- ===== src/Strings/Laws.antt =====
-- Strings as the lists of their bytes: kernel/src/util/storage.hh, String.
use native.Mathlib.Nat.{mod-eq_of_lt}
use neptun_os.Base.{
  ℕ, ◌+◌, ◌%◌, ◌^◌, ◌<◌, ◌≡◌, refl, ap, ◌∙◌, sym, Bool, true, false, some, ◌||◌, [], ◌∷◌, ◌++◌, ok,
  leb, ◌==◌, if◌then◌else◌, length, length-append, get_elem?, get_elem?-append, append_assoc, ltb,
  arith,
}
use neptun_os.Bits.{u64_mod}
use neptun_os.Text.{Bytes, strlen}
use neptun_os.Text.Compare.{NoZero, c_string, strlen_lem}
use neptun_os.Vector.{store, reserve}
use neptun_os.Vector.Laws.{reserve-Holds}
use neptun_os.Strings.{String, copy_bytes, from_chars, append}
use neptun_os.Strings.Blocks.{
  IsString, Copied, copy_bytes-Copied, NoZero-append, IsString-store, block, with_capacity-block,
}

from_chars_steps :
    (str : Bytes) (n : ℕ) (s1 : String)
    → strlen str ≡ ok n
    → n + 1 < u64_mod
    → copy_bytes (n + 1) 0 str (block (n + 1) n) ≡ ok s1
    → from_chars str ≡ store s1.size 0 s1
unfolding from_chars
from_chars_steps str n s1 len fits copied =
    let made =
      ap (copy_bytes (n + 1) 0 str) (with_capacity-block (n + 1) n (omega arith) fits) ∙ copied in
    rw (len, made) refl

-- A string made of a C string of less than 256 bytes holds its bytes.
pub from_chars-IsString :
    (cs behind : Bytes)
    → NoZero cs
    → length cs < 256
    → (s : String) × (from_chars (c_string cs behind) ≡ ok s) × IsString s cs
unfolding store block
from_chars-IsString cs behind n small =
    let m : ℕ = length cs in
    let len : strlen (c_string cs behind) ≡ ok m =
      strlen_lem cs behind n ∙ ap ok (mod-eq_of_lt small) in
    let text : (cs ++ 0 ∷ []) ++ behind ≡ cs ++ 0 ∷ behind = append_assoc cs (0 ∷ []) behind in
    let all : length (cs ++ 0 ∷ []) ≡ m + 1 = length-append cs (0 ∷ []) in
    let (s1, copied, k) =
      copy_bytes-Copied (cs ++ 0 ∷ []) behind 0 (block (m + 1) m) refl (omega (arith, all)) in
    let inside : (s1.null || leb s1.count s1.size) ≡ false =
      ground (arith, k.null, k.count, k.size) in
    (
      record s1 { cell = λ j. if j == s1.size then some 0 else s1.cell j },
      from_chars_steps (c_string cs behind) m s1 len (omega arith) (
            ap (λ l. copy_bytes l 0 (c_string cs behind) (block (m + 1) m)) (sym all)
            ∙ ap (λ p. copy_bytes (length (cs ++ 0 ∷ [])) 0 p (block (m + 1) m)) (sym text)
            ∙ copied)
          ∙ rw inside refl,
      record {
        chars = record {
          sized = k.size;
          room = omega (arith, k.size, k.capacity);
          block = k.count ∙ sym k.capacity;
          null_empty = λ e. cc (k.null, e);
          cells = λ i p. byte s1 k i (omega (arith, k.size, p)) ∙ refl;
        };
        room = omega (arith, k.size, k.capacity);
        ended = let self : (s1.size == s1.size) ≡ true = ground arith in rw self refl;
        no_zero = n;
      },
    )
  where
    byte :
        (s1 : String)
        → Copied (block (length cs + 1) (length cs)) s1 0 (cs ++ 0 ∷ [])
        → (i : ℕ) → i < length cs
        → (if i == s1.size then some 0 else s1.cell i) ≡ get_elem? cs i
    byte s1 k i p =
        let other : (i == s1.size) ≡ false = ground (arith, k.size) in
        let first : ltb i (length cs) ≡ true = ground arith in
        rw other (
          ap s1.cell (omega arith)
          ∙ k.written i (omega (arith, length-append cs (0 ∷ []), p))
          ∙ get_elem?-append cs (0 ∷ []) i
          ∙ rw first refl)

append_steps :
    (in_place : Bool) (p : Bytes) (s s1 s2 t : String) (len at_end to : ℕ)
    → strlen p ≡ ok len
    → reserve 1 in_place ((s.size + len + 1) % u64_mod) s ≡ ok s1
    → s1.size ≡ at_end
    → copy_bytes len at_end p s1 ≡ ok s2
    → (s2.size + len) % u64_mod ≡ to
    → store to 0 (record s2 { size = to }) ≡ ok t
    → append in_place p s ≡ ok t
unfolding append
append_steps in_place p s s1 s2 t len at_end to e1 e2 e3 e4 e5 e6 =
    let copied = ap (λ i. copy_bytes len i p s1) e3 ∙ e4 in rw (e1, e2, copied, e5) e6

-- Joining a C string of less than 256 bytes to a string whose size is below 2^32 - 256 gives a
-- terminated string of the bytes of both.
pub append-IsString :
    (in_place : Bool) (s : String) (cs ds behind : Bytes)
    → IsString s cs
    → NoZero ds
    → length ds < 256
    → s.size + 256 < 2 ^ 32
    → (t : String) × (append in_place (c_string ds behind) s ≡ ok t) × IsString t (cs ++ ds)
append-IsString in_place s cs ds behind h n small fits =
    let len : length ds % 256 ≡ length ds = mod-eq_of_lt small in
    let want : ℕ = s.size + length ds + 1 in
    let whole : want % u64_mod ≡ want = omega arith in
    let (s1, grown, h1, cap, size) =
      reserve-Holds 1 in_place want s cs h.chars (omega arith) (omega arith) (omega arith) in
    let room : length cs + length ds < s1.capacity = omega (arith, cap, h1.sized, size) in
    let live : s1.null ≡ false = ground (arith, h1.null_empty, room) in
    let at_end : s1.size ≡ length cs = h1.sized in
    let (s2, copied, k) =
      copy_bytes-Copied ds (0 ∷ behind) (length cs) s1 live (omega (arith, h1.block, room)) in
    let (t, stored, is) =
      IsString-store s1 s2 cs ds h1 (NoZero-append cs ds h.no_zero n) k live room in
    (
      t,
      append_steps in_place (c_string ds behind) s s1 s2 t (length ds) (length cs)
          (length cs + length ds) (strlen_lem ds behind n ∙ ap ok len)
          (ap (λ w. reserve 1 in_place w s) whole ∙ grown) at_end copied
          (mod-eq_of_lt {n = s2.size + length ds} (omega (arith, k.size, h1.sized, size))
            ∙ omega (arith, k.size, h1.sized))
          stored,
      is,
    )
