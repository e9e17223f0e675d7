-- ===== src/Paths/Basename.antt =====
-- What path_basename returns: kernel/src/fs/fs.cc.
use neptun_os.Base.{
  ℕ, zero, suc, ◌+◌, ◌-◌, ◌≤◌, ◌<◌, ◌≡◌, ◌≢◌, ◌%◌, refl, ap, ◌∙◌, false, some, [], ◌∷◌, ◌++◌, ok,
  ◌>>=◌, ◌==◌, length, length-append, append_assoc, get_elem?, arith,
}
use neptun_os.Text.{Bytes, strlen}
use neptun_os.Text.Compare.{NoZero, c_string, strlen_lem}
use neptun_os.Paths.{back, skip_bytes, cut, end_at, name_from, path_basename}

-- The text `s` holds no slash.
abbrev pub NoSlash : Bytes → Type 0
NoSlash [] = Unit
NoSlash (c ∷ s) = (c ≢ b'/') × NoSlash s

get_elem?-behind : (xs ys : Bytes) (i : ℕ) → get_elem? (xs ++ ys) (length xs + i) ≡ get_elem? ys i
get_elem?-behind [] ys i = ap (get_elem? ys) (omega arith)
get_elem?-behind (x ∷ xs) ys i =
    let place : suc (length xs) + i ≡ suc (length xs + i) = omega arith in
    rw place (get_elem?-behind xs ys i)

get_elem?-NoSlash :
    (name t : Bytes) (i : ℕ)
    → NoSlash name
    → i < length name
    → (c : ℕ) × (get_elem? (name ++ t) i ≡ some c) × ((c == b'/') ≡ false)
get_elem?-NoSlash [] t i n h = absurd (omega arith)
get_elem?-NoSlash (c ∷ name) t zero (plain, n) h = (c, refl, ground (arith, plain))
get_elem?-NoSlash (c ∷ name) t (suc i) (plain, n) h =
    get_elem?-NoSlash name t i n (omega (arith, h))

skip_bytes-append : (xs ys : Bytes) (x b : ℕ) → b ≡ length xs + 1 → skip_bytes b (xs ++ x ∷ ys) ≡ ys
unfolding skip_bytes
skip_bytes-append [] ys x b e = let one : b ≡ 1 = omega (arith, e) in rw one refl
skip_bytes-append (y ∷ xs) ys x b e =
    let more : b ≡ suc (length xs + 1) = omega (arith, e) in
    rw more (skip_bytes-append xs ys x (length xs + 1) refl)

end_at-append : (xs ys : Bytes) (x : ℕ) → end_at (length xs) (xs ++ x ∷ ys) ≡ xs ++ 0 ∷ ys
unfolding end_at
end_at-append [] ys x = refl
end_at-append (y ∷ xs) ys x = ap (λ l. y ∷ l) (end_at-append xs ys x)

cut-NoSlash :
    (name t : Bytes) → NoZero name → NoSlash name → cut (name ++ 0 ∷ t) ≡ ok (name ++ 0 ∷ t)
unfolding cut
cut-NoSlash [] t n s = refl
cut-NoSlash (c ∷ name) t (nz, n) (ns, s) =
    let letter : (c == 0) ≡ false = ground (arith, nz) in
    let plain : (c == b'/') ≡ false = ground (arith, ns) in
    rw (letter, cut, plain) (rw (cut-NoSlash name t n s, ◌>>=◌) refl)

-- The bytes of the path from its last slash on.
at_slash :
    (dir name t : Bytes) (b : ℕ)
    → b ≡ length dir
    → get_elem? (dir ++ (b'/' ∷ name ++ t)) b ≡ some b'/'
at_slash dir name t b e =
    let place : b ≡ length dir + 0 = omega (arith, e) in
    rw place (get_elem?-behind dir (b'/' ∷ name ++ t) 0)

at_name :
    (dir name t : Bytes) (k b : ℕ)
    → NoSlash name
    → k < length name
    → b ≡ length dir + suc k
    → (c : ℕ) × (get_elem? (dir ++ (b'/' ∷ name ++ t)) b ≡ some c) × ((c == b'/') ≡ false)
at_name dir name t k b n h e =
    let (c, found, plain) = get_elem?-NoSlash name t k n h in
    (c, rw e (get_elem?-behind dir (b'/' ∷ name ++ t) (suc k) ∙ found), plain)

back-NoSlash :
    (dir name t : Bytes) (k b : ℕ)
    → NoSlash name
    → k ≤ length name
    → b ≡ length dir + k
    → back (dir ++ (b'/' ∷ name ++ t)) b ≡ ok (length dir)
unfolding back
back-NoSlash dir name t zero zero n h e =
    rw (back, at_slash dir name t 0 (omega (arith, e))) (ap ok (omega (arith, e)))
back-NoSlash dir name t zero (suc b) n h e =
    rw (back, at_slash dir name t (suc b) (omega (arith, e))) (ap ok (omega (arith, e)))
back-NoSlash dir name t (suc k) zero n h e = absurd (omega (arith, e))
back-NoSlash dir name t (suc k) (suc b) n h e =
    let (c, found, plain) = at_name dir name t k (suc b) n (omega (arith, h)) e in
    rw (back, found)
      (rw plain (back-NoSlash dir name t k b n (omega (arith, h)) (omega (arith, e))))

-- The last steps of the call.
last_part :
    (dir name t : Bytes)
    → NoZero name
    → NoSlash name
    → name_from (dir ++ (b'/' ∷ name ++ 0 ∷ t)) (length dir + length name) ≡ ok (name ++ 0 ∷ t)
unfolding name_from
last_part dir name t n s =
    rw
      (
        back-NoSlash dir name (0 ∷ t) (length name) (length dir + length name) s (omega arith) refl,
        ◌>>=◌,
      )
      (rw (at_slash dir name (0 ∷ t) (length dir) refl) (
        rw (skip_bytes-append dir (name ++ 0 ∷ t) b'/' (length dir + 1) refl)
          (cut-NoSlash name t n s)))

-- A path without a slash at its end.
plain_path :
    (dir name t path : Bytes) (c len : ℕ)
    → NoZero (c ∷ name)
    → NoSlash (c ∷ name)
    → path ≡ dir ++ (b'/' ∷ c ∷ name ++ 0 ∷ t)
    → strlen path ≡ ok len
    → len ≡ length dir + length name + 2
    → path_basename path ≡ ok (c_string (c ∷ name) t)
unfolding path_basename
plain_path dir name t path c len n s e size sum =
    let (d, found, plain) =
      at_name dir (c ∷ name) (0 ∷ t) (length name) (len - 1) s (omega arith) (omega (arith, sum)) in
    let found' : get_elem? path (len - 1) ≡ some d = rw e found in
    let full : (len == 0) ≡ false = ground (arith, sum) in
    let start : len - 1 ≡ length dir + length (c ∷ name) = omega (arith, sum) in
    rw (size, ◌>>=◌) (rw (full, found') (rw plain (rw (start, e) (last_part dir (c ∷ name) t n s))))

-- A path with one.
slashed_path :
    (dir name t path : Bytes) (c len : ℕ)
    → NoZero (c ∷ name)
    → NoSlash (c ∷ name)
    → path ≡ (dir ++ b'/' ∷ c ∷ name) ++ b'/' ∷ 0 ∷ t
    → strlen path ≡ ok len
    → len ≡ length (dir ++ b'/' ∷ c ∷ name) + 1
    → path_basename path ≡ ok (c_string (c ∷ name) (0 ∷ t))
unfolding path_basename
slashed_path dir name t path c len n s e size sum =
    let before = dir ++ b'/' ∷ c ∷ name in
    let start : len - 1 ≡ length before + 0 = omega (arith, sum) in
    let found : get_elem? path (len - 1) ≡ some b'/' =
      rw (e, start) (get_elem?-behind before (b'/' ∷ 0 ∷ t) 0) in
    let long : length before ≡ length dir + length name + 2 =
      length-append dir (b'/' ∷ c ∷ name) ∙ omega arith in
    let full : (len == 0) ≡ false = ground (arith, sum) in
    let more : (len == 1) ≡ false = ground (arith, sum, long) in
    let last : len - 1 ≡ length before = omega (arith, sum) in
    let place : len - 2 ≡ length dir + length (c ∷ name) = omega (arith, sum, long) in
    let ended : end_at (len - 1) path ≡ dir ++ (b'/' ∷ c ∷ name ++ 0 ∷ 0 ∷ t) =
      rw (e, last)
        (end_at-append before (0 ∷ t) b'/' ∙ append_assoc dir (b'/' ∷ c ∷ name) (0 ∷ 0 ∷ t)) in
    rw (size, ◌>>=◌)
      (rw (full, found) (rw (more, ended, place) (last_part dir (c ∷ name) (0 ∷ t) n s)))

NoZero-append_right : (a b : Bytes) → NoZero (a ++ b) → NoZero b
NoZero-append_right [] b n = n
NoZero-append_right (x ∷ a) b (nz, n) = NoZero-append_right a b n

NoZero-append : (a b : Bytes) → NoZero a → NoZero b → NoZero (a ++ b)
NoZero-append [] b n m = m
NoZero-append (x ∷ a) b (nz, n) m = (nz, NoZero-append a b n m)

-- For a path whose last slash has a name behind it, of less than 255 bytes in all, path_basename points
-- to the name; so it does if one more slash ends the path, which it takes off.
pub path_basename-NoSlash :
    (dir name behind : Bytes) (c : ℕ)
    → NoZero (dir ++ b'/' ∷ c ∷ name)
    → NoSlash (c ∷ name)
    → length dir + length name < 253
    → (path_basename (c_string (dir ++ b'/' ∷ c ∷ name) behind) ≡ ok (c_string (c ∷ name) behind))
      × (path_basename (c_string (dir ++ b'/' ∷ c ∷ name ++ b'/' ∷ []) behind)
          ≡ ok (c_string (c ∷ name) (0 ∷ behind)))
unfolding path_basename
path_basename-NoSlash dir name behind c n s short =
    let named : NoZero (c ∷ name) = (NoZero-append_right dir (b'/' ∷ c ∷ name) n).1 in
    let size : length (dir ++ b'/' ∷ c ∷ name) ≡ length dir + length name + 2 =
      length-append dir (b'/' ∷ c ∷ name) ∙ omega arith in
    let size' : length (dir ++ b'/' ∷ c ∷ name ++ b'/' ∷ []) ≡ length (dir ++ b'/' ∷ c ∷ name) + 1 =
      length-append (dir ++ b'/' ∷ c ∷ name) (b'/' ∷ []) in
    (
      plain_path dir name behind _ c (length (dir ++ b'/' ∷ c ∷ name) % 256) named s
          (append_assoc dir (b'/' ∷ c ∷ name) (0 ∷ behind))
          (strlen_lem (dir ++ b'/' ∷ c ∷ name) behind n) (omega (arith, size, short)),
      slashed_path dir name behind _ c (length (dir ++ b'/' ∷ c ∷ name ++ b'/' ∷ []) % 256) named s
          (append_assoc (dir ++ b'/' ∷ c ∷ name) (b'/' ∷ []) (0 ∷ behind))
          (strlen_lem (dir ++ b'/' ∷ c ∷ name ++ b'/' ∷ []) behind (
            NoZero-append (dir ++ b'/' ∷ c ∷ name) (b'/' ∷ []) n
              ((λ h. absurd (omega (arith, h))), tt)))
          (omega (arith, size, size', short)),
    )
