-- ===== src/HashMap/Laws.antt =====
-- The operations of a hash map on what its buckets hold: kernel/src/util/storage.hh, HashMap.
use neptun_os.Base.{
  ℕ, ◌+◌, ◌<◌, ◌≡◌, ◌≢◌, refl, ap, ◌∙◌, sym, inl, inr, Bool, true, false, not, List, [], ◌∷◌,
  Option, none, some, Outcome, ok, fatal, ◌>>=◌, ◌==◌, Bool-cases, if◌then◌else◌, length, set,
  length-set, get_elem?-set, arith,
}
use neptun_os.Vector.{Vector, store}
use neptun_os.LinkedList.{LinkedList, load, get_link, walk}
use neptun_os.LinkedList.Ring.{Ring, Linked-cong, Linked-at}
use neptun_os.LinkedList.Writes.{load-Linked_elem}
use neptun_os.LinkedList.Push.{push_front-Ring}
use neptun_os.LinkedList.Remove.{remove-Ring_single}
use neptun_os.HashMap.{Pair, HashMap, find, at_key, has, remove_from, remove_key}
use neptun_os.HashMap.Buckets.{IsMap, elements, store-Holds, bucket_of_lem, find-none, find-some}

-- the function with another value at `i`
abbrev pub updated {ℓ} : {A : Type ℓ} → ℕ → A → (ℕ → A) → ℕ → A
updated i x f j = if j == i then x else f j

-- Another bucket in the place of bucket `i`.
IsMap-set {ℓ κ} :
    {K : Type ℓ} {V : Type κ} (m : HashMap K V) (bs : List (LinkedList (Pair K V)))
    (content : ℕ → Option (Pair K V)) (at : ℕ → ℕ) (i : ℕ) (b : LinkedList (Pair K V))
    (c : Option (Pair K V)) (p : ℕ)
    → IsMap m bs content at
    → i < m.size
    → Ring b (elements c) (λ j. p) 0
    → (v : Vector (LinkedList (Pair K V))) × (store i b m.entries ≡ ok v)
      × IsMap (record m { entries = v }) (set bs i b) (updated i c content) (updated i p at)
IsMap-set m bs content at i b c p k inside r =
    let below : i < length bs = omega (arith, k.sized) in
    let (v, e, h) = store-Holds i b m.entries bs k.entries below in
    (
      v,
      e,
      record {
        entries = h;
        sized = length-set bs i b ∙ k.sized;
        buckets = λ j d e'. elim (Bool-cases (j == i)) [
          | inl same ↦
              let new : some b ≡ some d = sym (get_elem?-set bs i j b below ∙ rw same refl) ∙ e' in
              let there : b ≡ d = ap (λ o. elim o [ none ↦ b | some x ↦ x ]) new in
              rw same (rw (← there) r)
          | inr other ↦
              rw other (k.buckets j d (sym (get_elem?-set bs i j b below ∙ rw other refl) ∙ e'))
        ];
      },
    )

module _ {ℓ κ} {K : Type ℓ} {V : Type κ} (same : K → K → Bool) (hash : K → ℕ → Outcome ℕ) (key : K)
    (i : ℕ) (m : HashMap K V) (bs : List (LinkedList (Pair K V))) (content : ℕ → Option (Pair K V))
    (at : ℕ → ℕ) (k : IsMap m bs content at) (hashed : hash key m.size ≡ ok i)
    (inside : i < m.size) where
  -- operator[] with a key whose bucket is empty inserts it with the default value there, refers to it,
  -- and leaves the other buckets as they are.
  pub at_key-insert :
      (fresh : ℕ) (default : V)
      → content i ≡ none
      → fresh ≢ 0
      → (m' : HashMap K V) × (bs' : List (LinkedList (Pair K V))) × (at_key same hash fresh default
            key m
          ≡ ok ((i, fresh), m'))
        × IsMap m' bs'
            (updated i (some (record { key = key; value = default })) content)
            (updated i fresh at)
  unfolding at_key
  at_key-insert fresh default nothing real =
      let (b, eb, bucket) = bucket_of_lem same hash key i m bs content at k hashed inside in
      let r : Ring b [] (λ j. at i) 0 = rw nothing at (k.buckets i b eb) in
      let pair : Pair K V = record { key = key; value = default } in
      let (b', pushed, r') =
        push_front-Ring fresh pair b real (omega (arith, r.sized)) [] (λ j. at i) 0 r
          (λ j h. absurd (omega (arith, h))) in
      let first : b'.first ≡ fresh = r'.head in
      let one : Ring b' (pair ∷ []) (λ j. fresh) 0 = place b' r' in
      let (v, stored, k') = IsMap-set m bs content at i b' (some pair) fresh k inside one in
      let empty : (b.size == 0) ≡ true = ground (arith, r.sized) in
      (
        record m { entries = v },
        set bs i b',
        rw (bucket, empty, pushed, stored) (ap (λ p. ok ((i, p), record m { entries = v })) first),
        k',
      )
    where
      place :
          (b' : LinkedList (Pair K V)) {x : Pair K V}
          → Ring b' (x ∷ []) (λ j. if j == 0 then fresh else at i) 0
          → Ring b' (x ∷ []) (λ j. fresh) 0
      place b' r = record {
        sized = r.sized;
        head = r.head;
        linked =
            Linked-cong (λ j h. ground (arith, h)) (Linked-at (λ j h. ground (arith, h)) r.linked);
      }

  -- A key whose bucket holds it is found, and nothing changes.
  pub at_key-found :
      (fresh : ℕ) (default : V) (x : Pair K V)
      → content i ≡ some x
      → same x.key key ≡ true
      → at_key same hash fresh default key m ≡ ok ((i, at i), m)
  unfolding at_key
  at_key-found fresh default x e found =
      let (b, eb, bucket) = bucket_of_lem same hash key i m bs content at k hashed inside in
      let r : Ring b (x ∷ []) (λ j. at i) 0 = rw e at (k.buckets i b eb) in
      let (one, first, real, seen) = find-some same hash key x b (at i) r in
      let filled : (b.size == 0) ≡ false = ground arith in
      let there : (at i == 0) ≡ false = ground arith in rw (bucket, filled, seen, found, there) refl

  -- operator[] with a key whose bucket holds another key is fatal.
  pub at_key-collision :
      (fresh : ℕ) (default : V) (x : Pair K V)
      → content i ≡ some x
      → same x.key key ≡ false
      → at_key same hash fresh default key m ≡ fatal
  unfolding at_key
  at_key-collision fresh default x e other =
      let (b, eb, bucket) = bucket_of_lem same hash key i m bs content at k hashed inside in
      let r : Ring b (x ∷ []) (λ j. at i) 0 = rw e at (k.buckets i b eb) in
      let (one, first, real, seen) = find-some same hash key x b (at i) r in
      let filled : (b.size == 0) ≡ false = ground arith in rw (bucket, filled, seen, other) refl

  -- Whether the bucket of a key holds it.
  pub has_lem :
      has same hash key m ≡ ok (elim (content i) [ none ↦ false | some x ↦ same x.key key ])
  unfolding has
  has_lem =
      let (b, eb, bucket) = bucket_of_lem same hash key i m bs content at k hashed inside in
      rw bucket (answer b (content i) (k.buckets i b eb))
    where
      answer :
          (b : LinkedList (Pair K V)) (c : Option (Pair K V))
          → Ring b (elements c) (λ j. at i) 0
          → (find same hash (b.size + 1) key b.first b >>= λ p. ok (not (p == 0)))
            ≡ ok (elim c [ none ↦ false | some x ↦ same x.key key ])
      answer b none r = let (size, first, seen) = find-none same hash key b (at i) r in rw seen refl
      answer b (some x) r =
          let (one, first, real, seen) = find-some same hash key x b (at i) r in
          let there : (at i == 0) ≡ false = ground arith in
          elim (Bool-cases (same x.key key)) [
            | inl yes_it ↦ rw (seen, yes_it, there) refl
            | inr no_it ↦ rw (seen, no_it) refl
          ]

  -- Removing the key that its bucket holds leaves that bucket empty and the others as they are.
  pub remove_key-found :
      (x : Pair K V)
      → content i ≡ some x
      → same x.key key ≡ true
      → (m' : HashMap K V) × (bs' : List (LinkedList (Pair K V))) × (remove_key same hash key m
          ≡ ok m')
        × IsMap m' bs' (updated i none content) (updated i (at i) at)
  unfolding remove_key remove_from get_link walk
  remove_key-found x e found =
      let (b, eb, bucket) = bucket_of_lem same hash key i m bs content at k hashed inside in
      let r : Ring b (x ∷ []) (λ j. at i) 0 = rw e at (k.buckets i b eb) in
      let (one, first, real, seen) = find-some same hash key x b (at i) r in
      let (b', removed, gone, r') = remove-Ring_single b x (λ j. at i) r in
      let loaded = load-Linked_elem b (x ∷ []) (λ j. at i) _ _ _ r.linked 0 (omega arith) x refl in
      let filled : (b.size == 0) ≡ false = ground arith in
      let got : get_link 0 b ≡ ok b.first = rw (ap (λ q. load q b) first ∙ loaded) refl in
      let run : remove_from same hash b.size key b.first b.first b ≡ ok b' =
        ap (λ n. remove_from same hash n key b.first b.first b) one
        ∙ ap (λ q. remove_from same hash 1 key q q b) first
        ∙ rw (loaded, found) removed in
      let (v, stored, k') = IsMap-set m bs content at i b' none (at i) k inside r' in
      (record m { entries = v }, set bs i b', rw (bucket, filled, got, run, stored) refl, k')
