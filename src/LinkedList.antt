-- ===== src/LinkedList.antt =====
-- LinkedList of kernel/src/util/storage.hh: a circular chain of links. A link is known by its address, 0 is
-- the null pointer, and `store` gives the link that is allocated at an address. The address of a new link
-- is the argument `fresh`. The mutex makes a call atomic.
pub mod Ring
pub mod Writes
pub mod Push
pub mod Remove
pub mod Walk
use neptun_os.Base.{
  ℕ, zero, suc, ◌+◌, ◌-◌, ◌%◌, Bool, true, false, not, Option, none, some, List, [], ◌∷◌, Outcome,
  ok, fatal, ◌>>=◌, ltb, ◌==◌, if◌then◌else◌,
}
use neptun_os.Bits.{u64_mod}

pub record Link {ℓ} (A : Type ℓ) : Type ℓ where
  pub prev : ℕ
  pub next : ℕ
  pub value : A
  pub last : Bool

pub record LinkedList {ℓ} (A : Type ℓ) : Type ℓ where
  pub store : ℕ → Option (Link A)
  pub first : ℕ
  pub size : ℕ

module _ {ℓ} {A : Type ℓ} where
  -- `*p`
  unfoldable pub load : ℕ → LinkedList A → Outcome (Link A)
  load p l = elim (l.store p) [ none ↦ fatal | some k ↦ ok k ]

  abbrev pub put : ℕ → Option (Link A) → LinkedList A → LinkedList A
  put p k l = record l { store = λ q. if q == p then k else l.store q }

  -- `p->next = v`, `p->prev = v`, `p->last = v`
  unfoldable pub set_next : (p v : ℕ) → LinkedList A → Outcome (LinkedList A)
  set_next p v l = load p l >>= λ k. ok (put p (some (record k { next = v })) l)

  unfoldable pub set_prev : (p v : ℕ) → LinkedList A → Outcome (LinkedList A)
  set_prev p v l = load p l >>= λ k. ok (put p (some (record k { prev = v })) l)

  unfoldable pub set_last : (p : ℕ) → Bool → LinkedList A → Outcome (LinkedList A)
  set_last p v l = load p l >>= λ k. ok (put p (some (record k { last = v })) l)

  -- An assignment to the element that an iterator stands at.
  unfoldable pub set_value : (p : ℕ) → A → LinkedList A → Outcome (LinkedList A)
  set_value p v l = load p l >>= λ k. ok (put p (some (record k { value = v })) l)

  -- The first link of a list.
  abbrev pub single : (fresh : ℕ) → A → LinkedList A → LinkedList A
  single fresh elem l =
      record (put fresh (some (record { prev = fresh; next = fresh; value = elem; last = true }))
        l) { first = fresh; size = (l.size + 1) % u64_mod }

  unfoldable pub push_back : (fresh : ℕ) → A → LinkedList A → Outcome (LinkedList A)
  push_back fresh elem l = if l.first == 0 then ok (single fresh elem l) else do
    f ← load l.first l
    let l1 =
        put fresh (some (record { prev = f.prev; next = l.first; value = elem; last = false }))
          (record l { size = (l.size + 1) % u64_mod })
    l2 ← set_next f.prev fresh l1
    p ← load f.prev l2
    l3 ← if p.last then set_last f.prev false l2 else fatal
    l4 ← set_prev l.first fresh l3
    set_last fresh true l4

  unfoldable pub push_front : (fresh : ℕ) → A → LinkedList A → Outcome (LinkedList A)
  push_front fresh elem l = if l.first == 0 then ok (single fresh elem l) else do
    f ← load l.first l
    let l1 =
        put fresh (some (record { prev = f.prev; next = l.first; value = elem; last = false }))
          (record l { size = (l.size + 1) % u64_mod })
    l2 ← set_next f.prev fresh l1
    l3 ← set_prev l.first fresh l2
    ok (record l3 { first = fresh })

  -- `remove` of the link at `p`, which is deleted.
  unfoldable pub remove : (p : ℕ) → LinkedList A → Outcome (LinkedList A)
  remove p l =
      if l.size == 0
      then fatal
      else if l.first == 0
      then fatal
      else if l.size == 1
      then (load p l >>= λ k. ok (record (put p none l) { first = 0; size = 0 }))
      else do
        k ← load p l
        l1 ← set_next k.prev k.next l
        k1 ← load p l1
        l2 ← set_prev k1.next k1.prev l1
        k2 ← load p l2
        ok (record (put p none l2) {
          first = if l.first == p then k2.next else l.first;
          size = l.size - 1;
        })

  -- `while (l && idx2) { l = l->next; idx2--; }`: where it ends, and what is left of the index.
  unfoldable pub walk : (idx2 : ℕ) → ℕ → LinkedList A → Outcome (ℕ × ℕ)
  walk zero p l = ok (p, 0)
  walk (suc k) p l = if p == 0 then ok (p, suc k) else (load p l >>= λ link. walk k link.next l)

  unfoldable pub get_link : (idx : ℕ) → LinkedList A → Outcome ℕ
  get_link idx l = walk idx l.first l >>= λ (p, idx2).
      if not (idx2 == 0) then fatal else (load p l >>= λ _. ok p)

  unfoldable pub remove_index : (idx : ℕ) → LinkedList A → Outcome (LinkedList A)
  remove_index idx l =
      if ltb l.size idx then fatal else (walk idx l.first l >>= λ (p, _). remove p l)

  -- `++` of the iterator
  unfoldable pub increment : ℕ → LinkedList A → Outcome ℕ
  increment p l = load p l >>= λ k. ok (if k.last then 0 else k.next)

  -- The elements that a loop from the iterator `p` up to `end()` visits, in that many rounds at most.
  unfoldable pub visit : (rounds : ℕ) → ℕ → LinkedList A → Outcome (List A)
  visit zero p l = fatal
  visit (suc k) p l =
      if p == 0
      then ok []
      else do link ← load p l; q ← increment p l; rest ← visit k q l; ok (link.value ∷ rest)
