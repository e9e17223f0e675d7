-- ===== src/Paths/Clean.antt =====
-- What path_sanitize makes of a path: kernel/src/fs/fs.cc.
use neptun_os.Base.{
  ℕ, ◌≡◌, refl, ap, inl, inr, Bool, true, false, ◌&&◌, List, [], ◌∷◌, ◌++◌, Outcome, ok, fatal,
  ◌>>=◌, ◌==◌, if◌then◌else◌, Bool-cases, arith,
}
use mathlib.Core.Bool.{false≢true}
use neptun_os.Text.{Bytes}
use neptun_os.Text.Compare.{NoZero, c_string}
use neptun_os.Paths.{sanitize_from}

-- No slash stands behind another, nor at the front where one stands before it.
abbrev pub IsCleanBehind : (slash : Bool) → Bytes → Type 0
IsCleanBehind slash [] = Unit
IsCleanBehind slash (c ∷ s) = ((slash && (c == b'/')) ≡ false) × IsCleanBehind (c == b'/') s

abbrev pub IsClean : Bytes → Type 0
IsClean s = IsCleanBehind false s

-- The parts of a path between its slashes, with `part` as the start of the first.
abbrev pub end_part : (part : Bytes) → List Bytes → List Bytes
end_part [] others = others
end_part (c ∷ part) others = (c ∷ part) ∷ others

abbrev pub parts_from : (part : Bytes) → Bytes → List Bytes
parts_from part [] = end_part part []
parts_from part (c ∷ s) =
    if c == b'/' then end_part part (parts_from [] s) else parts_from (part ++ c ∷ []) s

abbrev pub parts : Bytes → List Bytes
parts s = parts_from [] s

-- `ret += c` for each byte of a string in turn.
abbrev pub push_all {ℓ} : {S : Type ℓ} (push : ℕ → S → Outcome S) → Bytes → S → Outcome S
push_all push [] ret = ok ret
push_all push (c ∷ s) ret = push c ret >>= push_all push s

-- A string that comes out clean and with the same parts.
abbrev pub IsSanitized : (slash : Bool) (part s r : Bytes) → Type 0
IsSanitized slash part s r =
    NoZero r × IsCleanBehind slash r × (parts_from part r ≡ parts_from part s)

module _ {ℓ} {S : Type ℓ} (push : ℕ → S → Outcome S) where
  sanitize_from-end :
      (slash : Bool) (behind : Bytes) (ret : S) → sanitize_from push slash (0 ∷ behind) ret ≡ ok ret
  unfolding sanitize_from
  sanitize_from-end true behind ret = refl
  sanitize_from-end false behind ret = refl

  -- After one byte more, the loop is where pushing the bytes of `r` brings it.
  after_push :
      (slash : Bool) (p r : Bytes) (pushed : Outcome S)
      → ((ret : S) → sanitize_from push slash p ret ≡ push_all push r ret)
      → (pushed >>= sanitize_from push slash p) ≡ (pushed >>= push_all push r)
  after_push slash p r (ok ret) same = same ret
  after_push slash p r fatal same = refl

  -- A path of clean form is pushed as it is.
  sanitize_from-IsCleanBehind :
      (slash : Bool) (s behind : Bytes)
      → NoZero s
      → IsCleanBehind slash s
      → (ret : S) → sanitize_from push slash (c_string s behind) ret ≡ push_all push s ret
  unfolding sanitize_from
  sanitize_from-IsCleanBehind slash [] behind n clean ret = sanitize_from-end slash behind ret
  sanitize_from-IsCleanBehind slash (c ∷ s) behind (plain, n) (first, clean) ret =
      let letter : (c == 0) ≡ false = ground (arith, plain) in
      rw (first, sanitize_from, letter)
        (after_push (c == b'/') (c_string s behind) s (push c ret)
          (sanitize_from-IsCleanBehind (c == b'/') s behind n clean))

  sanitize_from_lem :
      (slash : Bool) (s behind part : Bytes)
      → NoZero s
      → (slash ≡ true → part ≡ [])
      → (r : Bytes) × ((ret : S)
          → sanitize_from push slash (c_string s behind) ret ≡ push_all push r ret)
        × IsSanitized slash part s r
  unfolding sanitize_from
  sanitize_from_lem slash [] behind part n h = ([], sanitize_from-end slash behind, (tt, tt, refl))
  sanitize_from_lem slash (c ∷ s) behind part (plain, n) h =
      let letter : (c == 0) ≡ false = ground (arith, plain) in
      elim (Bool-cases (slash && (c == b'/'))) [
        | inl skip ↦
            let on : slash ≡ true = ground (arith, skip) in
            let bar : (c == b'/') ≡ true = ground (arith, skip) in
            let (r, run, (nz, clean, same)) = sanitize_from_lem true s behind [] n (λ e. refl) in
            (r, (λ ret. rw (skip, sanitize_from) (run ret)), (nz, rw on clean, rw (h on, bar) same))
        | inr stay ↦ elim (Bool-cases (c == b'/')) [
          | inl bar ↦
              let (r, run, (nz, clean, same)) = sanitize_from_lem true s behind [] n (λ e. refl) in
              (
                c ∷ r,
                (λ ret.
                    rw (stay, sanitize_from, letter, bar)
                      (after_push true (c_string s behind) r (push c ret) run)),
                ((plain, nz), (stay, rw bar clean), rw bar (ap (end_part part) same)),
              )
          | inr other ↦
              let (r, run, (nz, clean, same)) =
                sanitize_from_lem false s behind (part ++ c ∷ []) n (λ e. absurd (false≢true e)) in
              (
                c ∷ r,
                (λ ret.
                    rw (stay, sanitize_from, letter, other)
                      (after_push false (c_string s behind) r (push c ret) run)),
                ((plain, nz), (stay, rw other clean), rw other same),
              )
        ]
      ]

-- Whatever adding a byte to the string does, a fault included, the loop of path_sanitize on a
-- terminated path adds the bytes of one path in turn, with no slash behind another and with the same
-- parts between its slashes, and on that path it adds the very same bytes.
pub sanitize_from-IsClean {ℓ} :
    {S : Type ℓ} (push : ℕ → S → Outcome S) (s behind behind' : Bytes)
    → NoZero s
    → (r : Bytes) × ((ret : S)
        → sanitize_from push false (c_string s behind) ret ≡ push_all push r ret)
      × IsClean r
      × (parts r ≡ parts s)
      × ((ret : S) → sanitize_from push false (c_string r behind') ret ≡ push_all push r ret)
sanitize_from-IsClean push s behind behind' n =
    let (r, run, (nz, clean, same)) = sanitize_from_lem push false s behind [] n (λ e. refl) in
    (r, run, clean, same, sanitize_from-IsCleanBehind push false r behind' nz clean)
