-- ===== src/HashMap/Buckets.antt =====
-- A hash map as the pair that each of its buckets holds, if any: kernel/src/util/storage.hh, HashMap.
use neptun_os.Base.{
  ℕ, ◌+◌, ◌<◌, ◌≡◌, ◌≢◌, refl, ap, ◌∙◌, sym, inl, inr, Bool, false, ◌||◌, leb, List, [], ◌∷◌,
  Option, none, some, Outcome, ok, ◌==◌, Bool-cases, if◌then◌else◌, length, get_elem?,
  get_elem?-of_lt, set, length-set, get_elem?-set, arith,
}
use neptun_os.Vector.{Vector, store}
use neptun_os.Vector.Laws.{Holds, index-Holds}
use neptun_os.LinkedList.{LinkedList, increment}
use neptun_os.LinkedList.Ring.{Ring}
use neptun_os.LinkedList.Writes.{load-Linked_elem}
use neptun_os.HashMap.{Pair, HashMap, bucket_of, find}

abbrev pub elements {ℓ} : {A : Type ℓ} → Option A → List A
elements none = []
elements (some x) = x ∷ []

-- The buckets of `m` are `bs`; bucket `i` holds `content i` and nothing else, in the link at `at i`.
pub record IsMap {ℓ κ} {K : Type ℓ} {V : Type κ} (m : HashMap K V)
    (bs : List (LinkedList (Pair K V))) (content : ℕ → Option (Pair K V)) (at : ℕ → ℕ)
    : Type (ℓ ⊔ κ) where
  pub entries : Holds m.entries bs
  pub sized : length bs ≡ m.size
  pub buckets :
      (i : ℕ) (b : LinkedList (Pair K V))
      → get_elem? bs i ≡ some b
      → Ring b (elements (content i)) (λ j. at i) 0

pub store-Holds {ℓ} :
    {A : Type ℓ} (i : ℕ) (x : A) (v : Vector A) (xs : List A)
    → Holds v xs
    → i < length xs
    → (v' : Vector A) × (store i x v ≡ ok v') × Holds v' (set xs i x)
unfolding store
store-Holds i x v xs h p =
    let inside : (v.null || leb v.count i) ≡ false =
      ground (arith, h.sized, h.room, h.block, h.null_empty) in
    (
      record v { cell = λ j. if j == i then some x else v.cell j },
      rw inside refl,
      record {
        sized = omega (arith, h.sized, length-set xs i x);
        room = h.room;
        block = h.block;
        null_empty = h.null_empty;
        cells = λ j q. sym (
            get_elem?-set xs i j x p ∙ elim (Bool-cases (j == i)) [
              | inl same ↦ rw same refl
              | inr other ↦ rw other (sym (h.cells j q))
            ]);
      },
    )

module _ {ℓ κ} {K : Type ℓ} {V : Type κ} (same : K → K → Bool) (hash : K → ℕ → Outcome ℕ) where
  pub bucket_of_lem :
      (key : K) (i : ℕ) (m : HashMap K V) (bs : List (LinkedList (Pair K V)))
      (content : ℕ → Option (Pair K V)) (at : ℕ → ℕ)
      → IsMap m bs content at
      → hash key m.size ≡ ok i
      → i < m.size
      → (b : LinkedList (Pair K V)) × (get_elem? bs i ≡ some b)
        × (bucket_of same hash key m ≡ ok (i, b))
  unfolding bucket_of
  bucket_of_lem key i m bs content at k hashed below =
      let inside : i < length bs = omega (arith, k.sized) in
      let (b, e) = get_elem?-of_lt bs i inside in
      (b, e, rw (hashed, index-Holds i b m.entries bs k.entries e inside) refl)

  -- A bucket with nothing in it.
  pub find-none :
      (key : K) (b : LinkedList (Pair K V)) (p : ℕ)
      → Ring b [] (λ j. p) 0
      → (b.size ≡ 0) × (b.first ≡ 0) × (find same hash (b.size + 1) key b.first b ≡ ok 0)
  unfolding find
  find-none key b p r =
      let rounds : b.size + 1 ≡ 1 = omega (arith, r.sized) in
      (r.sized, r.head, rw (rounds, r.head) refl)

  -- A bucket with one pair.
  pub find-some :
      (key : K) (x : Pair K V) (b : LinkedList (Pair K V)) (p : ℕ)
      → Ring b (x ∷ []) (λ j. p) 0
      → (b.size ≡ 1)
        × (b.first ≡ p)
        × (p ≢ 0)
        × (find same hash (b.size + 1) key b.first b ≡ ok (if same x.key key then p else 0))
  unfolding find increment
  find-some key x b p r =
      let rounds : b.size + 1 ≡ 2 = omega (arith, r.sized) in
      let real : p ≢ 0 = r.linked.nonzero 0 (omega arith) in
      let test : (p == 0) ≡ false = ground arith in
      let loaded = load-Linked_elem b (x ∷ []) (λ j. p) _ _ _ r.linked 0 (omega arith) x refl in
      let at_p : b.first ≡ p = r.head in
      let step : find same hash 2 key p b ≡ ok (if same x.key key then p else 0) =
        rw (test, loaded)
          (elim (Bool-cases (same x.key key)) [
            | inl yes_it ↦ rw yes_it refl
            | inr no_it ↦ rw (no_it, loaded) refl
          ]) in
      (
        r.sized,
        r.head,
        real,
        ap (λ n. find same hash n key b.first b) rounds
            ∙ ap (λ q. find same hash 2 key q b) at_p
            ∙ step,
      )
