-- ===== src/Ustar/Laws.antt =====
-- Which of the loops over an archive end: kernel/src/util/ustar.cc.
use neptun_os.Base.{
  Outcome, Option, ℕ, zero, suc, ◌+◌, ◌-◌, ◌*◌, ◌/◌, ◌%◌, ◌^◌, ◌≤◌, ◌<◌, ◌≡◌, refl, ap, ◌∙◌, Bool,
  true, false, not, ◌&&◌, List, [], ◌∷◌, ◌++◌, ok, ltb, ◌==◌, Bool-cases, inl, inr, length, arith,
}
use neptun_os.Text.{Bytes, strlen, strncmp, strncmp_loop}
use neptun_os.Text.Copy.{drop}
use neptun_os.Ustar.{
  UstarFile, oct2bin, padded_size, at_header, ustar_lookup, ustar_list, filesize_at, magic_at,
  header_size, ustar,
}

-- the number that octal digits stand for, behind the number `n`
unfoldable pub octal : (n : ℕ) → List ℕ → ℕ
octal n [] = n
octal n (d ∷ ds) = octal (n * 8 + d) ds

-- digits, as characters
abbrev pub AreOctal : List ℕ → Type 0
AreOctal [] = Unit
AreOctal (d ∷ ds) = (d < 8) × AreOctal ds

unfoldable pub digit_chars : List ℕ → Bytes
digit_chars [] = []
digit_chars (d ∷ ds) = (d + 0x30) ∷ digit_chars ds

octal-le : (n : ℕ) (ds : List ℕ) → n ≤ octal n ds
unfolding octal
octal-le n [] = omega arith
octal-le n (d ∷ ds) = omega (arith, octal-le (n * 8 + d) ds)

-- Octal digits are read back.
pub oct2bin-octal :
    (n : ℕ) (ds behind : List ℕ)
    → AreOctal ds
    → octal n ds < 2 ^ 32
    → oct2bin (length ds) (digit_chars ds ++ behind) n ≡ ok (octal n ds)
unfolding oct2bin octal digit_chars
oct2bin-octal n [] behind are fits = refl
oct2bin-octal n (d ∷ ds) behind are fits =
    let step : (n * 8 + (d + 0x30) + 2 ^ 32 - 0x30) % 2 ^ 32 ≡ n * 8 + d =
      omega (arith, octal-le (n * 8 + d) ds, fits) in
    rw step (oct2bin-octal (n * 8 + d) ds behind are.1 fits)

oct2bin-terminator_from :
    (n : ℕ) (ds behind : List ℕ)
    → AreOctal ds
    → octal n ds < 2 ^ 29
    → oct2bin (suc (length ds)) (digit_chars ds ++ 0 ∷ behind) n
      ≡ ok ((octal n ds * 8 + 2 ^ 32 - 0x30) % 2 ^ 32)
unfolding oct2bin octal digit_chars
oct2bin-terminator_from n [] behind are fits = ap ok (omega arith)
oct2bin-terminator_from n (d ∷ ds) behind are fits =
    let step : (n * 8 + (d + 0x30) + 2 ^ 32 - 0x30) % 2 ^ 32 ≡ n * 8 + d =
      omega (arith, octal-le (n * 8 + d) ds, fits) in
    rw step (oct2bin-terminator_from (n * 8 + d) ds behind are.1 fits)

-- The terminator of the size field is read as one more digit, which stands for minus 48.
pub oct2bin-terminator :
    (ds behind : List ℕ)
    → AreOctal ds
    → octal 0 ds < 2 ^ 29
    → oct2bin (length ds + 1) (digit_chars ds ++ 0 ∷ behind) 0
      ≡ ok ((octal 0 ds * 8 + 2 ^ 32 - 0x30) % 2 ^ 32)
oct2bin-terminator ds behind are fits =
    ap (λ k. oct2bin k (digit_chars ds ++ 0 ∷ behind) 0) (omega arith)
    ∙ oct2bin-terminator_from 0 ds behind are fits

-- Where ustar_lookup meets a header of another file, of at most 6 bytes by the 11 octal digits of its
-- size field, it neither ends nor faults in any number of rounds: the outcome is the one given for a
-- loop that has not ended, whatever that is.
pub ustar_lookup-endless :
    (unfinished : Outcome (Option UstarFile)) (rounds : ℕ) (archive : Bytes) (archivesize : ℕ)
    (file : Bytes) (off n : ℕ) (ds behind : List ℕ)
    → at_header archive archivesize off ≡ ok true
    → length ds ≡ 11
    → AreOctal ds
    → octal 0 ds ≤ 6
    → drop (off + filesize_at) archive ≡ digit_chars ds ++ 0 ∷ behind
    → strlen file ≡ ok n
    → strncmp file (drop off archive) n ≡ ok 1
    → ustar_lookup unfinished rounds archive archivesize file off ≡ unfinished
unfolding ustar_lookup padded_size
ustar_lookup-endless unfinished zero archive archivesize file off n ds behind header eleven are few
      field len other =
    refl
ustar_lookup-endless unfinished (suc k) archive archivesize file off n ds behind header eleven are
      few field len other =
    let again =
      ustar_lookup-endless unfinished k archive archivesize file off n ds behind header eleven are
        few field len other in
    let size : ℕ = (octal 0 ds * 8 + 2 ^ 32 - 0x30) % 2 ^ 32 in
    let read : oct2bin 12 (drop (off + filesize_at) archive) 0 ≡ ok size =
      ap (λ p. oct2bin 12 p 0) field
      ∙ ap (λ k. oct2bin k (digit_chars ds ++ 0 ∷ behind) 0) (omega (arith, eleven))
      ∙ oct2bin-terminator ds behind are (omega (arith, few)) in
    let stays : off + (size + 511) % 2 ^ 32 / 512 * 512 ≡ off = omega (arith, few) in
    rw (header, read, len, other, stays) again

length-drop : (k : ℕ) (p : Bytes) → length (drop k p) ≡ length p - k
unfolding drop
length-drop zero p = omega arith
length-drop (suc k) [] = omega arith
length-drop (suc k) (c ∷ p) = omega (arith, length-drop k p)

strncmp_loop-total :
    (a b : Bytes) (chars : ℕ)
    → chars ≤ length a
    → chars ≤ length b
    → (r : ℕ) × (strncmp_loop a b chars ≡ ok r)
unfolding strncmp_loop
strncmp_loop-total a b zero h h' = (0, refl)
strncmp_loop-total [] b (suc k) h h' = absurd (omega arith)
strncmp_loop-total (c ∷ a) [] (suc k) h h' = absurd (omega arith)
strncmp_loop-total (c ∷ a) (d ∷ b) (suc k) h h' =
    let (r, e) = strncmp_loop-total a b k (omega arith) (omega arith) in
    elim (Bool-cases (not (c == 0) && not (d == 0))) [
      | inl both ↦ elim (Bool-cases (not (c == d))) [
        | inl differ ↦ (1, rw (both, differ) refl)
        | inr same ↦ (r, rw (both, same) e)
      ]
      | inr ends ↦ (0, rw ends refl)
    ]

strncmp-total :
    (a b : Bytes) (chars : ℕ)
    → 0 < chars
    → chars ≤ length a
    → chars ≤ length b
    → (r : ℕ) × (strncmp a b chars ≡ ok r)
unfolding strncmp
strncmp-total [] b chars pos h h' = absurd (omega arith)
strncmp-total (c ∷ a) [] chars pos h h' = absurd (omega arith)
strncmp-total (c ∷ a) (d ∷ b) chars pos h h' =
    let some_chars : (chars == 0) ≡ false = ground arith in
    let (r, e) = strncmp_loop-total (c ∷ a) (d ∷ b) chars h h' in
    elim (Bool-cases (not (c == d))) [
      | inl differ ↦ (1, rw (some_chars, differ) refl)
      | inr same ↦ (r, rw (some_chars, same) e)
    ]

oct2bin-total :
    (size : ℕ) (str : Bytes) (n : ℕ) → size ≤ length str → (r : ℕ) × (oct2bin size str n ≡ ok r)
unfolding oct2bin
oct2bin-total zero str n h = (n, refl)
oct2bin-total (suc k) [] n h = absurd (omega arith)
oct2bin-total (suc k) (c ∷ str) n h = oct2bin-total k str _ (omega arith)

at_header-total :
    (archive : Bytes) (archivesize off : ℕ)
    → archivesize + header_size ≤ length archive
    → (more : Bool) × (at_header archive archivesize off ≡ ok more)
      × (more ≡ true → off < archivesize)
unfolding at_header
at_header-total archive archivesize off room = elim (Bool-cases (ltb off archivesize)) [
  | inl inside ↦
      let below : off < archivesize = ground (arith, inside) in
      let (r, e) =
        strncmp-total (drop (off + magic_at) archive) ustar 5 (omega arith)
          (omega (arith, length-drop (off + magic_at) archive)) (omega arith) in
      (r == 0, rw (inside, e) refl, λ _. below)
  | inr outside ↦ (false, rw outside refl, λ e. cc)
]

-- With a header of readable bytes behind the archive, ustar_list ends without a fault, in at most one
-- round more than the archive has headers of 512 bytes.
pub ustar_list-total :
    (rounds : ℕ) (archive : Bytes) (archivesize off : ℕ)
    → archivesize + header_size ≤ length archive
    → archivesize ≤ off + rounds * header_size
    → (files : List UstarFile) × (ustar_list (suc rounds) archive archivesize off ≡ ok files)
unfolding ustar_list
ustar_list-total zero archive archivesize off room enough =
    let (more, e, inside) = at_header-total archive archivesize off room in
    elim (Bool-cases more) [
      | inl there ↦ absurd (omega (arith, inside there, enough))
      | inr over ↦ ([], rw (e, over) refl)
    ]
ustar_list-total (suc k) archive archivesize off room enough =
    let (more, e, inside) = at_header-total archive archivesize off room in
    elim (Bool-cases more) [
      | inl there ↦
          let (size, read) =
            oct2bin-total 11 (drop (off + filesize_at) archive) 0
              (omega (arith, inside there, length-drop (off + filesize_at) archive, room)) in
          let (files, later) =
            ustar_list-total k archive archivesize (off + padded_size size + header_size) room
              (omega (arith, enough)) in
          (
            record { name = off; size = size; address = off + header_size } ∷ files,
            rw (e, there, read, later) refl,
          )
      | inr over ↦ ([], rw (e, over) refl)
    ]
