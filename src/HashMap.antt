-- ===== src/HashMap.antt =====
-- HashMap of kernel/src/util/storage.hh, over a vector of linked lists. The comparison `same` of keys and
-- the overload `hash` for their type are arguments; `fresh` is the address of the link that an insertion
-- allocates. A reference into the map is the number of a bucket and the address of a link in it.
pub mod Buckets
pub mod Laws
use neptun_os.Base.{
  ℕ, zero, suc, ◌+◌, ◌-◌, ◌*◌, ◌%◌, ◌^◌, Bool, true, false, not, List, [], ◌∷◌, Outcome, none, some,
  ok, fatal, ◌>>=◌, ltb, ◌==◌, if◌then◌else◌,
}
use neptun_os.Bits.{u64_mod}
use neptun_os.Text.{Bytes}
use neptun_os.Vector.{Vector, index, store, resize}
use neptun_os.Vector.Whole.{with_capacity}
use neptun_os.LinkedList.{LinkedList, load, push_front, remove, get_link, increment, set_value}
use neptun_os.LinkedList

-- `pow`, in 128 bits
unfoldable pub pow : (a b : ℕ) → ℕ
pow a zero = 1
pow a (suc b) = pow a b * a % 2 ^ 128

-- A byte of a string as it goes into the sum: a `char` has a sign.
unfoldable pub char_value : ℕ → ℕ
char_value c = if ltb c 128 then c else c + 2 ^ 128 - 256

-- The overloads of `hash`; to divide by 0 is a fault.
unfoldable pub hash_number : (key size : ℕ) → Outcome ℕ
hash_number key size = if size == 0 then fatal else ok (key % size)

unfoldable pub string_sum : Bytes → (i sum : ℕ) → ℕ
unfolding pow char_value
string_sum [] i sum = sum
string_sum (c ∷ val) i sum = string_sum val (i + 1) ((sum + pow 53 i * char_value c) % u64_mod)

-- for a String, whose bytes are `val`
unfoldable pub hash_string : (val : Bytes) (size : ℕ) → Outcome ℕ
unfolding string_sum
hash_string val size = if size == 0 then fatal else ok (string_sum val 0 0 % size)

-- for a C string: the first byte is taken before the loop looks for the terminator.
unfoldable pub chars_sum : Bytes → (i sum : ℕ) → Outcome ℕ
unfolding pow char_value
chars_sum [] i sum = fatal
chars_sum (c ∷ val) i sum =
    let rest = chars_sum val (i + 1) ((sum + pow 53 i * char_value c) % u64_mod) in
    if c == 0 then ok sum else rest

unfoldable pub hash_chars : (val : Bytes) (size : ℕ) → Outcome ℕ
unfolding chars_sum char_value
hash_chars [] size = fatal
hash_chars (c ∷ val) size =
    chars_sum val 1 (char_value c % u64_mod) >>= λ sum. if size == 0 then fatal else ok (sum % size)

pub record Pair {ℓ κ} (K : Type ℓ) (V : Type κ) : Type (ℓ ⊔ κ) where
  pub key : K
  pub value : V

pub record HashMap {ℓ κ} (K : Type ℓ) (V : Type κ) : Type (ℓ ⊔ κ) where
  pub entries : Vector (LinkedList (Pair K V))
  pub size : ℕ

module _ {ℓ κ} {K : Type ℓ} {V : Type κ} where
  abbrev pub empty_bucket : LinkedList (Pair K V)
  empty_bucket = record { store = λ p. none; first = 0; size = 0 }

  -- A bucket takes 24 bytes, and `size` is a u32.
  unfoldable pub construct : (in_place : Bool) (s : ℕ) → Outcome (HashMap K V)
  construct in_place s =
      resize 24 in_place empty_bucket (s % 2 ^ 32) (with_capacity 24 s) >>= λ entries.
      ok (record { entries = entries; size = s % 2 ^ 32 })

module _ {ℓ κ} {K : Type ℓ} {V : Type κ} (same : K → K → Bool) (hash : K → ℕ → Outcome ℕ) where
  -- `entries[hash(key, size)]`
  unfoldable pub bucket_of : K → HashMap K V → Outcome (ℕ × LinkedList (Pair K V))
  bucket_of key m = do i ← hash key m.size; b ← index i m.entries; ok (i, b)

  -- The loop over a bucket from the link at `p` on, in that many rounds at most; 0 if no key is the same.
  unfoldable pub find : (rounds : ℕ) → K → (p : ℕ) → LinkedList (Pair K V) → Outcome ℕ
  find zero key p b = fatal
  find (suc k) key p b =
      if p == 0
      then ok 0
      else (load p b >>= λ link. elim (same link.value.key key) [
        | true ↦ ok p
        | false ↦ increment p b >>= λ q. find k key q b
      ])

  -- `operator[]`; `default` is `V()`.
  unfoldable pub at_key :
      (fresh : ℕ) (default : V) → K → HashMap K V → Outcome ((ℕ × ℕ) × HashMap K V)
  at_key fresh default key m = bucket_of key m >>= λ (i, b).
      if b.size == 0
      then (push_front fresh (record { key = key; value = default }) b >>= λ b'.
          store i b' m.entries >>= λ entries. ok ((i, b'.first), record m { entries = entries }))
      else (find (b.size + 1) key b.first b >>= λ p. if p == 0 then fatal else ok ((i, p), m))

  unfoldable pub has : K → HashMap K V → Outcome Bool
  has key m =
      bucket_of key m >>= λ (i, b). find (b.size + 1) key b.first b >>= λ p. ok (not (p == 0))

  -- The loop of `remove`, from the link at `p` round to the first one.
  unfoldable pub remove_from :
      (rounds : ℕ) → K → (first p : ℕ) → LinkedList (Pair K V) → Outcome (LinkedList (Pair K V))
  remove_from zero key first p b = fatal
  remove_from (suc k) key first p b = load p b >>= λ link. elim (same link.value.key key) [
    | true ↦ LinkedList.remove p b
    | false ↦ elim (first == link.next) [
      | true ↦ fatal
      | false ↦ remove_from k key first link.next b
    ]
  ]

  unfoldable pub remove_key : K → HashMap K V → Outcome (HashMap K V)
  remove_key key m = bucket_of key m >>= λ (i, b).
      if b.size == 0
      then fatal
      else (get_link 0 b >>= λ first. remove_from b.size key first first b >>= λ b'.
          store i b' m.entries >>= λ entries. ok (record m { entries = entries }))

module _ {ℓ κ} {K : Type ℓ} {V : Type κ} where
  -- What a reference gives, and an assignment through it.
  unfoldable pub get_at : (ℕ × ℕ) → HashMap K V → Outcome V
  get_at r m = index r.0 m.entries >>= λ b. load r.1 b >>= λ link. ok link.value.value

  unfoldable pub set_at : (ℕ × ℕ) → V → HashMap K V → Outcome (HashMap K V)
  set_at r v m = do
    b ← index r.0 m.entries
    link ← load r.1 b
    b' ← set_value r.1 (record link.value { value = v }) b
    entries ← store r.0 b' m.entries
    ok (record m { entries = entries })
