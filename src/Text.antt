-- ===== src/Text.antt =====
-- The C strings of kernel/src/util/string.{hh,cc}. A pointer is the list of the bytes from its address
-- on; to read or write behind the last of them is a fault.
pub mod View
pub mod ViewLaws
pub mod Split
pub mod Compare
pub mod Copy
pub mod Ucs2
pub mod Number
use neptun_os.Base.{
  ℕ, zero, suc, ◌+◌, ◌-◌, ◌*◌, ◌%◌, ◌^◌, Bool, true, false, ◌&&◌, ◌||◌, not, List, [], ◌∷◌, Outcome,
  ok, fatal, ◌>>=◌, leb, ◌==◌, if◌then◌else◌,
}

abbrev pub Bytes : Type 0
Bytes = List ℕ

-- `*p`
abbrev pub peek : Bytes → Outcome ℕ
peek [] = fatal
peek (c ∷ p) = ok c

-- `p + 1`; a pointer past the end stays there.
abbrev pub next : Bytes → Bytes
next [] = []
next (c ∷ p) = p

-- `strlen` counts in a u8.
unfoldable pub strlen_from : ℕ → Bytes → Outcome ℕ
strlen_from len [] = fatal
strlen_from len (c ∷ str) =
    let rest = strlen_from ((len + 1) % 256) str in if c == 0 then ok len else rest

unfoldable pub strlen : Bytes → Outcome ℕ
strlen str = strlen_from 0 str

-- The result is 1 for different strings, 0 for equal ones.
unfoldable pub strcmp : Bytes → Bytes → Outcome ℕ
strcmp [] s2 = fatal
strcmp (c ∷ s1) [] = fatal
strcmp (c ∷ s1) (d ∷ s2) =
    let rest = strcmp s1 s2 in
    if not (c == 0) && not (d == 0)
    then (if not (c == d) then ok 1 else rest)
    else if not (c == d)
    then ok 1
    else ok 0

-- The loop of `strncmp`: `while (chars-- && *s1 && *s2)`.
unfoldable pub strncmp_loop : Bytes → Bytes → (chars : ℕ) → Outcome ℕ
strncmp_loop s1 s2 zero = ok 0
strncmp_loop [] s2 (suc chars) = fatal
strncmp_loop (c ∷ s1) [] (suc chars) = if c == 0 then ok 0 else fatal
strncmp_loop (c ∷ s1) (d ∷ s2) (suc chars) =
    let rest = strncmp_loop s1 s2 chars in
    if not (c == 0) && not (d == 0) then (if not (c == d) then ok 1 else rest) else ok 0

unfoldable pub strncmp : Bytes → Bytes → (chars : ℕ) → Outcome ℕ
strncmp s1 s2 chars =
    if chars == 0
    then ok 1
    else do c ← peek s1; d ← peek s2; if not (c == d) then ok 1 else strncmp_loop s1 s2 chars

-- `strcpy(src, dest)`: the number of bytes copied, counted from `len` on, and what `dest` points to then.
unfoldable pub strcpy_from : ℕ → Bytes → Bytes → Outcome (ℕ × Bytes)
strcpy_from len [] dest = fatal
strcpy_from len (c ∷ src) [] = fatal
strcpy_from len (c ∷ src) (d ∷ dest) =
    let rest = strcpy_from ((len + 1) % 2 ^ 32) src dest in
    if c == 0 then ok (len, 0 ∷ dest) else (rest >>= λ (n, out). ok (n, c ∷ out))

unfoldable pub strcpy : Bytes → Bytes → Outcome (ℕ × Bytes)
strcpy src dest = strcpy_from 0 src dest

-- `while (*src) *dest++ = *src++; *dest = 0;`
unfoldable pub append_at : Bytes → Bytes → Outcome Bytes
append_at dest [] = fatal
append_at [] (c ∷ src) = fatal
append_at (d ∷ dest) (c ∷ src) =
    let rest = append_at dest src in
    if c == 0 then ok (0 ∷ dest) else (rest >>= λ out. ok (c ∷ out))

unfoldable pub strcat : Bytes → Bytes → Outcome Bytes
strcat [] src = fatal
strcat (d ∷ dest) src =
    let rest = strcat dest src in
    if d == 0 then append_at (d ∷ dest) src else (rest >>= λ out. ok (d ∷ out))

-- `ISDIGIT`, `ISLOWERCASE`, `ISUPPERCASE`, `ISLETTER`
unfoldable pub is_digit : ℕ → Bool
is_digit x = leb b'0' x && leb x b'9'

unfoldable pub is_lowercase : ℕ → Bool
is_lowercase x = leb b'a' x && leb x b'z'

unfoldable pub is_uppercase : ℕ → Bool
is_uppercase x = leb b'A' x && leb x b'Z'

unfoldable pub is_letter : ℕ → Bool
is_letter x = is_lowercase x || is_uppercase x
