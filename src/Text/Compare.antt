-- ===== src/Text/Compare.antt =====
-- Comparing C strings and views of them.
use neptun_os.Base.{
  ℕ, zero, suc, ◌+◌, ◌%◌, ◌<◌, ◌≡◌, ◌≢◌, refl, ◌∙◌, ap, Bool, true, false, ◌&&◌, [], ◌∷◌, ◌++◌, ok,
  arith, ◌==◌, ◌↔◌, if◌then◌else◌, length,
}
use neptun_os.Text.{Bytes, strlen_from, strlen, strcmp, strncmp_loop, strncmp}

-- The text `s` holds no terminator.
abbrev pub NoZero : Bytes → Type 0
NoZero [] = Unit
NoZero (c ∷ s) = (c ≢ 0) × NoZero s

-- What a pointer to the C string `s` points to, with `behind` behind the terminator.
abbrev pub c_string : Bytes → Bytes → Bytes
c_string s behind = s ++ 0 ∷ behind

unfoldable pub same : Bytes → Bytes → Bool
same [] [] = true
same [] (d ∷ b) = false
same (c ∷ a) [] = false
same (c ∷ a) (d ∷ b) = c == d && same a b

pub same_iff : (a b : Bytes) → (same a b ≡ true) ↔ (a ≡ b)
unfolding same
same_iff [] [] = (λ _. refl, λ _. refl)
same_iff [] (d ∷ b) = (λ e. cc, λ e. cc)
same_iff (c ∷ a) [] = (λ e. cc, λ e. cc)
same_iff (c ∷ a) (d ∷ b) =
    (λ e. ground (arith, (same_iff a b).0), λ e. ground (arith, (same_iff a b).1))

-- `b` starts with `a`.
unfoldable pub is_prefix : Bytes → Bytes → Bool
is_prefix [] b = true
is_prefix (c ∷ a) [] = false
is_prefix (c ∷ a) (d ∷ b) = c == d && is_prefix a b

strlen_from_lem :
    (len : ℕ) (s behind : Bytes)
    → NoZero s
    → len < 256
    → strlen_from len (c_string s behind) ≡ ok ((len + length s) % 256)
unfolding strlen_from
strlen_from_lem len [] behind n h = ap ok (omega arith)
strlen_from_lem len (c ∷ s) behind n h =
    let shift : ((len + 1) % 256 + length s) % 256 ≡ (len + suc (length s)) % 256 = omega arith in
    ground (arith, strlen_from_lem ((len + 1) % 256) s behind n.1 (omega arith))

-- strlen of a terminated string is its length modulo 256.
pub strlen_lem : (s behind : Bytes) → NoZero s → strlen (c_string s behind) ≡ ok (length s % 256)
unfolding strlen
strlen_lem s behind n = strlen_from_lem 0 s behind n (omega arith) ∙ ap ok (omega arith)

-- strcmp of two terminated strings is 0 if they are the same and 1 otherwise; nothing behind either
-- terminator is read.
pub strcmp_lem :
    (a b behind behind' : Bytes)
    → NoZero a
    → NoZero b
    → strcmp (c_string a behind) (c_string b behind') ≡ ok (if same a b then 0 else 1)
unfolding strcmp same
strcmp_lem [] [] behind behind' n m = refl
strcmp_lem [] (d ∷ b) behind behind' n m = ground arith
strcmp_lem (c ∷ a) [] behind behind' n m = ground arith
strcmp_lem (c ∷ a) (d ∷ b) behind behind' n m =
    ground (arith, strcmp_lem a b behind behind' n.1 m.1)

-- As far as both strings go, and for `n` bytes at most, they are the same.
unfoldable pub agree : (n : ℕ) → Bytes → Bytes → Bool
agree zero a b = true
agree (suc n) [] b = true
agree (suc n) (c ∷ a) [] = true
agree (suc n) (c ∷ a) (d ∷ b) = c == d && agree n a b

strncmp_loop_lem :
    (n : ℕ) (a b behind behind' : Bytes)
    → NoZero a
    → NoZero b
    → strncmp_loop (c_string a behind) (c_string b behind') n ≡ ok (if agree n a b then 0 else 1)
unfolding strncmp_loop agree
strncmp_loop_lem zero a b behind behind' p q = refl
strncmp_loop_lem (suc n) [] [] behind behind' p q = refl
strncmp_loop_lem (suc n) [] (d ∷ b) behind behind' p q = refl
strncmp_loop_lem (suc n) (c ∷ a) [] behind behind' p q = ground arith
strncmp_loop_lem (suc n) (c ∷ a) (d ∷ b) behind behind' p q =
    ground (arith, strncmp_loop_lem n a b behind behind' p.1 q.1)

-- For a positive count, strncmp of two non-empty strings is 0 exactly if they agree for that many bytes
-- as far as both go.
pub strncmp_lem :
    (n c d : ℕ) (a b behind behind' : Bytes)
    → NoZero (c ∷ a)
    → NoZero (d ∷ b)
    → 0 < n
    → strncmp (c_string (c ∷ a) behind) (c_string (d ∷ b) behind') n
      ≡ ok (if agree n (c ∷ a) (d ∷ b) then 0 else 1)
unfolding strncmp
strncmp_lem zero c d a b behind behind' p q pos = absurd (omega arith)
strncmp_lem (suc n) c d a b behind behind' p q pos =
    ground
      (arith, strncmp_loop_lem (suc n) (c ∷ a) (d ∷ b) behind behind' p q, agree_head n c d a b)
  where
    agree_head :
        (n c d : ℕ) (a b : Bytes) → (c == d) ≡ false → agree (suc n) (c ∷ a) (d ∷ b) ≡ false
    agree_head n c d a b e = unfold agree in rw e refl

agree-append : (n : ℕ) (a b : Bytes) → agree n a (a ++ b) ≡ true
unfolding agree
agree-append zero a b = refl
agree-append (suc n) [] b = refl
agree-append (suc n) (c ∷ a) b = ground (arith, agree-append n a b)

-- strncmp of a non-empty string and any extension of it is 0 for every positive count.
pub strncmp-append :
    (n c : ℕ) (a b behind behind' : Bytes)
    → NoZero (c ∷ a)
    → NoZero (c ∷ a ++ b)
    → 0 < n
    → strncmp (c_string (c ∷ a) behind) (c_string (c ∷ a ++ b) behind') n ≡ ok 0
strncmp-append n c a b behind behind' p q pos =
    strncmp_lem n c c a (a ++ b) behind behind' p q pos
    ∙ ap (λ t. ok (if t then 0 else 1)) (agree-append n (c ∷ a) b)
