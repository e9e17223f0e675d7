-- ===== src/Disk/Laws.antt =====
-- What msd_read returns, for every place and length: kernel/src/devmgr/msd/msd.cc.
use neptun_os.Base.{
  ℕ, zero, suc, ◌+◌, ◌*◌, ◌/◌, ◌%◌, ◌≤◌, ◌<◌, ◌≡◌, refl, ap, ◌∙◌, inl, inr, true, ◌&&◌, ok, fatal,
  leb, if◌then◌else◌, Bool-cases, arith,
}
use neptun_os.Bits.{u64_mod}
use neptun_os.Arith.{align, isaligned}
use neptun_os.Arith.Laws.{align_bounds, align_of_aligned}
use neptun_os.Disk.{span, slice, msd_read}

-- A piece of a span.
pub slice-span :
    (disk : ℕ → ℕ) (at m i n : ℕ)
    → i + n ≤ m
    → slice (span disk at m) i n ≡ ok (span disk (at + i) n)
unfolding slice span
slice-span disk at m i zero h = refl
slice-span disk at zero i (suc n) h = absurd (omega arith)
slice-span disk at (suc m) zero (suc n) h =
    let here : at + 0 ≡ at = omega arith in
    let after : at + 1 + 0 ≡ at + 1 = omega arith in
    rw (slice-span disk (at + 1) m zero n (omega arith), here, after) refl
slice-span disk at (suc m) (suc i) (suc n) h =
    slice-span disk (at + 1) m i (suc n) (omega arith)
    ∙ ap (λ t. ok (span disk t (suc n))) (omega arith)

slice-span_overrun :
    (disk : ℕ → ℕ) (at m i n : ℕ) → m < i + n → 0 < n → slice (span disk at m) i n ≡ fatal
unfolding slice span
slice-span_overrun disk at m i zero h k = absurd (omega arith)
slice-span_overrun disk at zero i (suc n) h k = refl
slice-span_overrun disk at (suc m) zero (suc zero) h k = absurd (omega arith)
slice-span_overrun disk at (suc m) zero (suc (suc n)) h k =
    rw (slice-span_overrun disk (at + 1) m zero (suc n) (omega arith) (omega arith)) refl
slice-span_overrun disk at (suc m) (suc i) (suc n) h k =
    slice-span_overrun disk (at + 1) m i (suc n) (omega arith) (omega arith)

-- With a length of 1 byte or more that does not wrap when it is rounded up, msd_read gives the bytes
-- from the place on, if they end within as many sectors, counted from the one that the place lies in,
-- as the length alone takes; otherwise it reads behind its bounce buffer.
pub msd_read_lem :
    (disk : ℕ → ℕ) (offset bytes buf : ℕ)
    → bytes + 512 ≤ u64_mod
    → 0 < bytes
    → msd_read disk offset bytes buf ≡ (
        if leb (offset % 512 + bytes) (align bytes 512) then ok (span disk offset bytes) else fatal)
unfolding msd_read isaligned
msd_read_lem disk offset bytes buf fits some =
    let (whole, most, least) = align_bounds bytes 512 (omega arith) fits in
    let sectors : align bytes 512 / 512 * 512 ≡ align bytes 512 = omega (arith, whole) in
    let at : offset / 512 * 512 + offset % 512 ≡ offset = omega arith in
    elim (Bool-cases (isaligned offset 512 && isaligned bytes 512 && isaligned buf 512)) [
      | inl direct ↦
          let at' : offset / 512 * 512 ≡ offset = ground (arith, direct) in
          let n' : bytes / 512 * 512 ≡ bytes = ground (arith, direct) in
          let same : align bytes 512 ≡ bytes =
            align_of_aligned bytes 512 (omega arith) fits (ground (arith, direct)) in
          let within : leb (offset % 512 + bytes) (align bytes 512) ≡ true =
            ground (arith, same, at') in
          rw (direct, within, at', n') refl
      | inr bounce ↦ elim (Bool-cases (leb (offset % 512 + bytes) (align bytes 512))) [
        | inl within ↦
            rw (bounce, within, sectors)
              (slice-span disk (offset / 512 * 512) (align bytes 512) (offset % 512) bytes
                  (ground (arith, within))
                ∙ ap (λ t. ok (span disk t bytes)) at)
        | inr behind ↦
            rw (bounce, behind, sectors)
              (slice-span_overrun disk (offset / 512 * 512) (align bytes 512) (offset % 512) bytes
                (ground (arith, behind)) some)
      ]
    ]
