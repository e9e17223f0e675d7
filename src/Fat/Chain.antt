-- ===== src/Fat/Chain.antt =====
-- The loop that reads the chain of a file's clusters: kernel/modules/fat/src/fat.cc, chainread.
use neptun_os.Base.{
  ℕ, zero, suc, ◌+◌, ◌-◌, ◌*◌, ◌%◌, ◌^◌, ◌≤◌, ◌<◌, ◌≡◌, refl, ap, ◌∙◌, inl, inr, true, false, List,
  [], ◌∷◌, ◌++◌, Outcome, ok, ◌>>=◌, min, leb, ltb, ◌==◌, if◌then◌else◌, Bool-cases, length,
  append_assoc, arith,
}
use neptun_os.Bits.{u64_mod}
use neptun_os.Arith.{align}
use neptun_os.Arith.Laws.{align_bounds}
use neptun_os.Text.{Bytes}
use neptun_os.Disk.{span, slice, msd_read}
use neptun_os.Disk.Laws.{msd_read_lem}
use neptun_os.Fat.{Handle, diskoffset, chain_end, fat_at, read_chain}

-- The clusters of a chain behind its first one, `c`, in the order of the table.
abbrev pub Chain : Handle → ℕ → List ℕ → Type 0
Chain h c [] = (e : ℕ) × (fat_at h c ≡ ok e) × (chain_end ≤ e)
Chain h c (d ∷ ds) = (fat_at h c ≡ ok d) × (d < chain_end) × Chain h d ds

-- A cluster of 512 bytes whose place does not wrap.
abbrev pub IsOnDisk : Handle → ℕ → Type 0
IsOnDisk h c = (2 ≤ c) × ((c - 2) * 512 < 2 ^ 32) × (h.dataoffset + (c - 2) * 512 + 512 ≤ u64_mod)

abbrev pub AreOnDisk : Handle → List ℕ → Type 0
AreOnDisk h [] = Unit
AreOnDisk h (c ∷ cs) = IsOnDisk h c × AreOnDisk h cs

abbrev pub cluster_at : Handle → ℕ → ℕ
cluster_at h c = h.dataoffset + (c - 2) * 512

-- The bytes of a file: those of its clusters, one behind the other.
unfoldable pub contents : (disk : ℕ → ℕ) → Handle → List ℕ → Bytes
contents disk h [] = []
contents disk h (c ∷ cs) = span disk (cluster_at h c) 512 ++ contents disk h cs

slice-append_left :
    (disk : ℕ → ℕ) (at m i n : ℕ) (behind : Bytes)
    → i + n ≤ m
    → slice (span disk at m ++ behind) i n ≡ ok (span disk (at + i) n)
unfolding slice span
slice-append_left disk at m i zero behind h = refl
slice-append_left disk at zero i (suc n) behind h = absurd (omega arith)
slice-append_left disk at (suc m) zero (suc n) behind h =
    let here : at + 0 ≡ at = omega arith in
    let after : at + 1 + 0 ≡ at + 1 = omega arith in
    rw (slice-append_left disk (at + 1) m zero n behind (omega arith), here, after) refl
slice-append_left disk at (suc m) (suc i) (suc n) behind h =
    slice-append_left disk (at + 1) m i (suc n) behind (omega arith)
    ∙ ap (λ t. ok (span disk t (suc n))) (omega arith)

slice-append_all :
    (disk : ℕ → ℕ) (at k n r : ℕ) (behind piece : Bytes)
    → n ≡ k + r
    → slice behind 0 r ≡ ok piece
    → slice (span disk at k ++ behind) 0 n ≡ ok (span disk at k ++ piece)
unfolding slice span
slice-append_all disk at zero n r behind piece en e =
    ap (λ t. slice behind 0 t) (omega (arith, en)) ∙ e
slice-append_all disk at (suc k) zero r behind piece en e = absurd (omega arith)
slice-append_all disk at (suc k) (suc n) r behind piece en e =
    rw (slice-append_all disk (at + 1) k n r behind piece (omega arith) e) refl

-- A piece that begins `k` bytes before the end of the span and goes on behind it.
slice-append_across :
    (disk : ℕ → ℕ) (at m i k n r : ℕ) (behind piece : Bytes)
    → m ≡ i + k
    → n ≡ k + r
    → 0 < n
    → slice behind 0 r ≡ ok piece
    → slice (span disk at m ++ behind) i n ≡ ok (span disk (at + i) k ++ piece)
unfolding slice span
slice-append_across disk at m zero k n r behind piece em en some e =
    let here : at + 0 ≡ at = omega arith in
    let end : m ≡ k = omega arith in
    ap (λ t. slice (span disk at t ++ behind) 0 n) end
    ∙ rw here (slice-append_all disk at k n r behind piece en e)
slice-append_across disk at m (suc i) k zero r behind piece em en some e = absurd (omega arith)
slice-append_across disk at zero (suc i) k (suc n) r behind piece em en some e =
    absurd (omega arith)
slice-append_across disk at (suc m) (suc i) k (suc n) r behind piece em en some e =
    slice-append_across disk (at + 1) m i k (suc n) r behind piece (omega arith) en some e
    ∙ ap (λ t. ok (span disk t k ++ piece)) (omega arith)

pub slice-append_behind :
    (disk : ℕ → ℕ) (at m j n : ℕ) (behind : Bytes)
    → slice (span disk at m ++ behind) (m + j) (suc n) ≡ slice behind j (suc n)
unfolding slice span
slice-append_behind disk at zero j n behind = ap (λ t. slice behind t (suc n)) (omega arith)
slice-append_behind disk at (suc m) j n behind =
    let step : suc m + j ≡ suc (m + j) = omega arith in
    rw step (slice-append_behind disk (at + 1) m j n behind)

module _ (unfinished : Outcome (ℕ × Bytes)) (disk : ℕ → ℕ) (h : Handle)
    (bpc : h.bpb.bytespersector * h.bpb.sectorspercluster ≡ 512)
    (aligned : h.dataoffset % 512 ≡ 0) where
  read_piece :
      (c coff n buf : ℕ)
      → IsOnDisk h c
      → coff + n ≤ 512
      → 0 < n
      → (diskoffset h c ≡ ok (cluster_at h c))
        × (msd_read disk ((cluster_at h c + coff) % u64_mod) n buf
            ≡ ok (span disk (cluster_at h c + coff) n))
  unfolding diskoffset
  read_piece c coff n buf (two, small, fits) within some =
      let there : ltb c 2 ≡ false = ground arith in
      let place : (h.dataoffset + (c - 2) * 512 % 2 ^ 32) % u64_mod ≡ cluster_at h c =
        omega arith in
      let place' : (cluster_at h c + coff) % u64_mod ≡ cluster_at h c + coff = omega arith in
      let (whole, most, least) = align_bounds n 512 (omega arith) (omega arith) in
      let start : (cluster_at h c + coff) % 512 + n ≤ align n 512 =
        omega (arith, whole, most, aligned) in
      let enough : leb ((cluster_at h c + coff) % 512 + n) (align n 512) ≡ true =
        ground (arith, start) in
      let read = msd_read_lem disk (cluster_at h c + coff) n buf (omega arith) some in
      (rw there (ap ok place), rw (place', read, enough) refl)

  -- One round of the loop, at a cluster that is read.
  read_chain_round :
      (k c coff n buf got next : ℕ) (out : Bytes)
      → IsOnDisk h c
      → coff < 512
      → 0 < n
      → 0 < buf
      → fat_at h c ≡ ok next
      → read_chain unfinished disk h (suc k) c coff n buf got out ≡ (
          let piece = span disk (cluster_at h c + coff) (min n (512 - coff)) in
          if leb chain_end next
          then ok ((got + min n (512 - coff)) % u64_mod, out ++ piece)
          else read_chain unfinished disk h k next 0
              (n - min n (512 - coff))
              ((buf + min n (512 - coff)) % u64_mod)
              ((got + min n (512 - coff)) % u64_mod)
              (out ++ piece))
  unfolding read_chain
  read_chain_round k c coff n buf got next out there inside some real e =
      let more : (n == 0) ≡ false = ground arith in
      let given : (buf == 0) ≡ false = ground arith in
      let (at, piece) =
        read_piece c coff (min n (512 - coff)) buf there (omega arith) (omega arith) in
      elim (Bool-cases (leb chain_end next)) [
        | inl last ↦
            rw (more, bpc, given, at, piece, e, read_chain) (rw (last, ◌>>=◌) (rw bpc refl))
        | inr on ↦
            rw (more, bpc, given, at, piece, e, read_chain)
              (rw (on, ◌>>=◌) (rw given (rw bpc refl)))
      ]

  read_chain_done :
      (k c coff buf got : ℕ) (out : Bytes)
      → 0 < k
      → read_chain unfinished disk h k c coff 0 buf got out ≡ ok (got, out)
  unfolding read_chain
  read_chain_done zero c coff buf got out some = absurd (omega arith)
  read_chain_done (suc k) c coff buf got out some = refl

  -- A round that reads to the end of its cluster, and what the others read.
  read_chain_on :
      (k c coff n buf got d : ℕ) (out piece : Bytes) (r : Outcome (ℕ × Bytes))
      → coff < 512
      → 512 - coff < n
      → buf + n < u64_mod
      → got + n < u64_mod
      → r
        ≡ read_chain unfinished disk h k d 0
            (n - min n (512 - coff))
            ((buf + min n (512 - coff)) % u64_mod)
            ((got + min n (512 - coff)) % u64_mod)
            (out ++ span disk (cluster_at h c + coff) (min n (512 - coff)))
      → read_chain unfinished disk h k d 0
          (n - (512 - coff))
          (buf + (512 - coff))
          (got + (512 - coff))
          (out ++ span disk (cluster_at h c + coff) (512 - coff))
        ≡ ok (
          got + (512 - coff) + (n - (512 - coff)),
          (out ++ span disk (cluster_at h c + coff) (512 - coff)) ++ piece,
        )
      → r ≡ ok (got + n, out ++ (span disk (cluster_at h c + coff) (512 - coff) ++ piece))
  read_chain_on k c coff n buf got d out piece r inside over fits fits' first others =
      let part : min n (512 - coff) ≡ 512 - coff = omega arith in
      let buf' : (buf + (512 - coff)) % u64_mod ≡ buf + (512 - coff) = omega arith in
      let got' : (got + (512 - coff)) % u64_mod ≡ got + (512 - coff) = omega arith in
      let sum : got + (512 - coff) + (n - (512 - coff)) ≡ got + n = omega arith in
      let same = append_assoc out (span disk (cluster_at h c + coff) (512 - coff)) piece in
      first ∙ rw (part, buf', got') (others ∙ rw (sum, same) refl)

  -- The loop over a chain reads the piece of its contents that begins at `coff`.
  pub read_chain-Chain :
      (k c coff n buf got : ℕ) (cs out : Bytes)
      → Chain h c cs
      → AreOnDisk h (c ∷ cs)
      → length cs + 1 < k
      → coff < 512
      → 0 < n
      → coff + n ≤ 512 * (length cs + 1)
      → 0 < buf
      → buf + n < u64_mod
      → got + n < u64_mod
      → (piece : Bytes) × (read_chain unfinished disk h k c coff n buf got out
          ≡ ok (got + n, out ++ piece))
        × (slice (contents disk h (c ∷ cs)) coff n ≡ ok piece)
  unfolding contents
  read_chain-Chain zero c coff n buf got cs out ch there room inside some short real fits fits' =
      absurd (omega arith)
  read_chain-Chain (suc k) c coff n buf got [] out (end, e, is_end) there room inside some short
        real fits fits' =
      let all : min n (512 - coff) ≡ n = omega arith in
      let last : leb chain_end end ≡ true = ground (arith, is_end) in
      let round = read_chain_round k c coff n buf got end out there.0 inside some real e in
      let sum : (got + n) % u64_mod ≡ got + n = omega arith in
      (
        span disk (cluster_at h c + coff) n,
        round ∙ rw (last, all, sum) refl,
        slice-append_left disk (cluster_at h c) 512 coff n [] (omega (arith, short)),
      )
  read_chain-Chain (suc k) c coff n buf got (d ∷ ds) out (e, more, rest) (on_c, on_ds) room inside
        some short real fits fits' =
      let on : leb chain_end d ≡ false = ground (arith, more) in
      let round = read_chain_round k c coff n buf got d out on_c inside some real e in
      let go_on = rw on at round in
      elim (Bool-cases (leb n (512 - coff))) [
        | inl within ↦
            let all : min n (512 - coff) ≡ n = ground (arith, within) in
            let sum : (got + n) % u64_mod ≡ got + n = omega arith in
            let none_left : n - n ≡ 0 = omega arith in
            (
              span disk (cluster_at h c + coff) n,
              go_on
                  ∙ rw (all, sum, none_left)
                      (read_chain_done k d 0 ((buf + n) % u64_mod) (got + n) _
                        (omega (arith, room))),
              slice-append_left disk (cluster_at h c) 512 coff n (contents disk h (d ∷ ds))
                  (ground (arith, within)),
            )
        | inr beyond ↦
            let over : 512 - coff < n = ground (arith, beyond) in
            let (piece, read, sliced) =
              read_chain-Chain k d 0 (n - (512 - coff)) (buf + (512 - coff)) (got + (512 - coff)) ds
                (out ++ span disk (cluster_at h c + coff) (512 - coff)) rest on_ds
                (omega (arith, room)) (omega arith) (omega arith) (omega arith) (omega arith)
                (omega arith) (omega arith) in
            (
              span disk (cluster_at h c + coff) (512 - coff) ++ piece,
              read_chain_on k c coff n buf got d out piece
                  (read_chain unfinished disk h (suc k) c coff n buf got out) inside over fits fits'
                  go_on read,
              slice-append_across disk (cluster_at h c) 512 coff (512 - coff) n (n - (512 - coff))
                  (contents disk h (d ∷ ds)) piece (omega arith) (omega arith) some sliced,
            )
      ]
