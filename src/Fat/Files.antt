-- ===== src/Fat/Files.antt =====
-- What chainread returns for a file and for a folder: kernel/modules/fat/src/fat.cc.
use native.Mathlib.Nat.{mul-suc, zero-div, zero-mod}
use neptun_os.Base.{
  ℕ, zero, suc, ◌+◌, ◌-◌, ◌*◌, ◌/◌, ◌%◌, ◌^◌, ◌≤◌, ◌<◌, ◌≡◌, refl, ap, ◌∙◌, sym, inl, inr, true,
  false, ◌||◌, List, [], ◌∷◌, Outcome, ok, ◌>>=◌, min, leb, ◌==◌, if◌then◌else◌, Bool-cases, length,
  arith,
}
use neptun_os.Bits.{u64_mod}
use neptun_os.Text.{Bytes}
use neptun_os.Disk.{slice}
use neptun_os.Fat.{Handle, chain_end, fat_at, skip, read_chain, chainread}
use neptun_os.Fat.Chain.{
  Chain, AreOnDisk, contents, cluster_at, slice-append_behind, read_chain-Chain,
}

-- Skipping `k` clusters of a chain leads to the rest of it.
skip-Chain :
    (disk : ℕ → ℕ) (h : Handle) (k c : ℕ) (cs : List ℕ)
    → Chain h c cs
    → AreOnDisk h (c ∷ cs)
    → k ≤ length cs
    → (d : ℕ) × (ds : List ℕ) × (skip h k c ≡ ok d)
      × Chain h d ds
      × AreOnDisk h (d ∷ ds)
      × (length ds + k ≡ length cs)
      × ((i n : ℕ)
          → slice (contents disk h (c ∷ cs)) (512 * k + i) (suc n)
            ≡ slice (contents disk h (d ∷ ds)) i (suc n))
unfolding skip contents
skip-Chain disk h zero c cs ch on short = (
  c,
  cs,
  refl,
  ch,
  on,
  omega arith,
  λ i n. ap (λ t. slice (contents disk h (c ∷ cs)) t (suc n)) (omega arith),
)
skip-Chain disk h (suc k) c [] ch on short = absurd (omega arith)
skip-Chain disk h (suc k) c (d ∷ ds) (e, more, ch) (on_c, on) short =
    let (d', ds', skipped, ch', on', len, same) = skip-Chain disk h k d ds ch on (omega arith) in
    let inner : leb chain_end c ≡ false = ground (arith, on_c.0, on_c.1) in
    (
      d',
      ds',
      rw (e, inner, skip) skipped,
      ch',
      on',
      omega (arith, len),
      λ i n.
          ap (λ t. slice (contents disk h (c ∷ d ∷ ds)) t (suc n)) (omega arith)
          ∙ slice-append_behind disk (cluster_at h c) 512 (512 * k + i) n (contents disk h (d ∷ ds))
          ∙ same i n,
    )

chainread_steps :
    (unfinished : Outcome (ℕ × Bytes)) (disk : ℕ → ℕ) (h : Handle)
    (rounds c offset bytes buf bpc d : ℕ) (r : Outcome (ℕ × Bytes))
    → h.bpb.bytespersector * h.bpb.sectorspercluster ≡ bpc
    → 0 < bpc
    → offset / bpc < 2 ^ 32
    → skip h (offset / bpc) c ≡ ok d
    → read_chain unfinished disk h rounds d
        (offset % bpc)
        (if buf == 0 then 2 ^ 32 - 1 else bytes)
        buf
        0
        []
      ≡ r
    → chainread unfinished disk h rounds c offset bytes buf ≡ r
unfolding chainread
chainread_steps unfinished disk h rounds c offset bytes buf bpc d r whole some small skipped read =
    let sane : (bpc == 0 || leb (2 ^ 32) (offset / bpc)) ≡ false = ground (arith, some, small) in
    rw (whole, sane, skipped) read

-- With clusters of 512 bytes, as the data region is aligned to them, reading a piece of 1 byte or more
-- that lies inside a file, below 2^32, into a buffer gives the bytes that the chain of its clusters
-- holds there, in as many rounds as it has clusters and one more.
pub chainread-contents :
    (unfinished : Outcome (ℕ × Bytes)) (disk : ℕ → ℕ) (h : Handle) (c : ℕ) (cs : List ℕ)
    (offset bytes buf : ℕ)
    → h.bpb.bytespersector * h.bpb.sectorspercluster ≡ 512
    → h.dataoffset % 512 ≡ 0
    → Chain h c cs
    → AreOnDisk h (c ∷ cs)
    → 0 < bytes
    → offset + bytes ≤ 512 * length (c ∷ cs)
    → offset < 2 ^ 32
    → 0 < buf
    → buf + bytes < u64_mod
    → (piece : Bytes) × (chainread unfinished disk h (length cs + 2) c offset bytes buf
        ≡ ok (bytes, piece))
      × (slice (contents disk h (c ∷ cs)) offset bytes ≡ ok piece)
chainread-contents unfinished disk h c cs offset zero buf bpc aligned ch on some inside small real
      fits =
    absurd (omega arith)
chainread-contents unfinished disk h c cs offset (suc n) buf bpc aligned ch on some inside small
      real fits =
    let (d, ds, skipped, ch', on', len, same) =
      skip-Chain disk h (offset / 512) c cs ch on (omega arith) in
    let (piece, read, sliced) =
      read_chain-Chain unfinished disk h bpc aligned (length cs + 2) d (offset % 512) (suc n) buf 0
        ds [] ch' on' (omega (arith, len)) (omega arith) some (omega (arith, len)) real fits
        (omega arith) in
    let given : (buf == 0) ≡ false = ground arith in
    let place : 512 * (offset / 512) + offset % 512 ≡ offset = omega arith in
    let count : 0 + suc n ≡ suc n = omega arith in
    (
      piece,
      chainread_steps unfinished disk h (length cs + 2) c offset (suc n) buf 512 d
          (ok (suc n, piece)) bpc (omega arith) (omega arith) skipped
          (rw given (read ∙ rw count refl)),
      ap (λ t. slice (contents disk h (c ∷ cs)) t (suc n)) (sym place)
          ∙ same (offset % 512) n
          ∙ sliced,
    )

-- One round without a buffer.
size_round :
    (unfinished : Outcome (ℕ × Bytes)) (disk : ℕ → ℕ) (h : Handle) (k c got next : ℕ)
    → h.bpb.bytespersector * h.bpb.sectorspercluster < 2 ^ 32
    → fat_at h c ≡ ok next
    → read_chain unfinished disk h (suc k) c 0 (2 ^ 32 - 1) 0 got [] ≡ (
        let got' = (got + h.bpb.bytespersector * h.bpb.sectorspercluster) % u64_mod in
        if leb chain_end next
        then ok (got', [])
        else read_chain unfinished disk h k next 0 (2 ^ 32 - 1) 0 got' [])
unfolding read_chain
size_round unfinished disk h k c got next small e =
    let part : min (2 ^ 32 - 1) (h.bpb.bytespersector * h.bpb.sectorspercluster - 0)
        ≡ h.bpb.bytespersector * h.bpb.sectorspercluster =
      omega arith in
    elim (Bool-cases (leb chain_end next)) [
      | inl last ↦ rw (e, read_chain) (rw (last, ◌>>=◌) (rw part refl))
      | inr on ↦ rw (e, read_chain) (rw (on, ◌>>=◌) (rw part refl))
    ]

size_from :
    (unfinished : Outcome (ℕ × Bytes)) (disk : ℕ → ℕ) (h : Handle) (bpc k c got : ℕ) (cs : List ℕ)
    → h.bpb.bytespersector * h.bpb.sectorspercluster ≡ bpc
    → bpc < 2 ^ 32
    → Chain h c cs
    → length cs < k
    → got + bpc * length (c ∷ cs) < u64_mod
    → read_chain unfinished disk h k c 0 (2 ^ 32 - 1) 0 got []
      ≡ ok (got + bpc * length (c ∷ cs), [])
size_from unfinished disk h bpc zero c got cs whole small ch room fits = absurd (omega arith)
size_from unfinished disk h bpc (suc k) c got [] whole small (end, e, is_end) room fits =
    let round = size_round unfinished disk h k c got end (omega (arith, whole)) e in
    let last : leb chain_end end ≡ true = ground (arith, is_end) in
    let sum : (got + bpc) % u64_mod ≡ got + bpc * 1 = omega arith in
    round ∙ rw (last, whole, sum) refl
size_from unfinished disk h bpc (suc k) c got (d ∷ ds) whole small (e, more, ch) room fits =
    let round = size_round unfinished disk h k c got d (omega (arith, whole)) e in
    let on : leb chain_end d ≡ false = ground (arith, more) in
    let more_by : bpc * suc (suc (length ds)) ≡ bpc * suc (length ds) + bpc =
      mul-suc bpc (suc (length ds)) in
    let sum : (got + bpc) % u64_mod ≡ got + bpc = omega (arith, more_by) in
    let total : got + bpc + bpc * suc (length ds) ≡ got + bpc * suc (suc (length ds)) =
      omega (arith, more_by) in
    round
    ∙ rw (on, whole, sum)
        (size_from unfinished disk h bpc k d (got + bpc) ds whole small ch (omega (arith, room))
            (omega (arith, more_by))
          ∙ rw total refl)

-- Without a buffer chainread gives the number of bytes in all clusters of the chain, in one round for each,
-- and writes nothing.
pub chainread-size :
    (unfinished : Outcome (ℕ × Bytes)) (disk : ℕ → ℕ) (h : Handle) (bpc c bytes : ℕ) (cs : List ℕ)
    → h.bpb.bytespersector * h.bpb.sectorspercluster ≡ bpc
    → 0 < bpc
    → bpc < 2 ^ 32
    → Chain h c cs
    → bpc * length (c ∷ cs) < u64_mod
    → chainread unfinished disk h (length (c ∷ cs)) c 0 bytes 0 ≡ ok (bpc * length (c ∷ cs), [])
unfolding skip
chainread-size unfinished disk h bpc c bytes cs whole some small ch fits =
    let none_skipped : 0 / bpc ≡ 0 = zero-div bpc in
    let start : 0 % bpc ≡ 0 = zero-mod bpc in
    let sum : 0 + bpc * length (c ∷ cs) ≡ bpc * length (c ∷ cs) = omega arith in
    let read =
      size_from unfinished disk h bpc (length (c ∷ cs)) c 0 cs whole small ch (omega arith)
        (omega (arith, fits)) in
    chainread_steps unfinished disk h (length (c ∷ cs)) c 0 bytes 0 bpc c
      (ok (bpc * length (c ∷ cs), [])) whole some (rw none_skipped (omega arith))
      (rw none_skipped refl) (rw start (read ∙ rw sum refl))

endless_from :
    (unfinished : Outcome (ℕ × Bytes)) (disk : ℕ → ℕ) (h : Handle) (P : ℕ → Type 0) (k c got : ℕ)
    → h.bpb.bytespersector * h.bpb.sectorspercluster < 2 ^ 32
    → ((d : ℕ) → P d → (e : ℕ) × (fat_at h d ≡ ok e) × (e < chain_end) × P e)
    → P c
    → read_chain unfinished disk h k c 0 (2 ^ 32 - 1) 0 got [] ≡ unfinished
unfolding read_chain
endless_from unfinished disk h P zero c got small closed p = refl
endless_from unfinished disk h P (suc k) c got small closed p =
    let (e, entry, inner, p') = closed c p in
    let on : leb chain_end e ≡ false = ground (arith, inner) in
    size_round unfinished disk h k c got e small entry
    ∙ rw on (endless_from unfinished disk h P k e _ small closed p')

-- Without a buffer, and with clusters of 1 to 2^32 - 1 bytes, reading from a cluster whose chain stays
-- among clusters with a next one neither ends nor faults in any number of rounds: the outcome is the
-- one given for a loop that has not ended, whatever that is.
pub chainread-endless :
    (unfinished : Outcome (ℕ × Bytes)) (disk : ℕ → ℕ) (h : Handle) (P : ℕ → Type 0)
    (rounds c bytes : ℕ)
    → 0 < h.bpb.bytespersector * h.bpb.sectorspercluster
    → h.bpb.bytespersector * h.bpb.sectorspercluster < 2 ^ 32
    → ((d : ℕ) → P d → (e : ℕ) × (fat_at h d ≡ ok e) × (e < chain_end) × P e)
    → P c
    → chainread unfinished disk h rounds c 0 bytes 0 ≡ unfinished
unfolding skip
chainread-endless unfinished disk h P rounds c bytes some small closed p =
    let bpc = h.bpb.bytespersector * h.bpb.sectorspercluster in
    let none_skipped : 0 / bpc ≡ 0 = zero-div bpc in
    let start : 0 % bpc ≡ 0 = zero-mod bpc in
    chainread_steps unfinished disk h rounds c 0 bytes 0 bpc c unfinished refl some
      (rw none_skipped (omega arith)) (rw none_skipped refl)
      (rw start (endless_from unfinished disk h P rounds c 0 small closed p))
