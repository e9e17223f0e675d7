-- ===== src/Input/Editor.antt =====
-- The line buffer as a line editor: kernel/src/devmgr/input/input.cc, append_char.
use neptun_os.Base.{
  ℕ, zero, suc, ◌+◌, ◌-◌, ◌/◌, ◌^◌, ◌≤◌, ◌<◌, ◌≡◌, ◌≢◌, refl, ap, ◌∙◌, sym, true, false, Option,
  none, some, List, [], ◌∷◌, ◌++◌, ok, ltb, ◌==◌, Bool-cases, inl, inr, if◌then◌else◌, arith,
}
use neptun_os.Input.{
  Input, put_char, taken, type_char, append_char, kbd_translate_hu, input_buffer_max_size,
}

-- The line as it is typed: what is left of it, and the line that is done.
unfoldable pub without_last : List ℕ → List ℕ
without_last [] = []
without_last (c ∷ []) = []
without_last (c ∷ d ∷ cs) = c ∷ without_last (d ∷ cs)

unfoldable pub edit : (c : ℕ) → List ℕ → List ℕ × Option (List ℕ)
unfolding without_last
edit c line =
    if c == 0x0a
    then ([], some line)
    else if c == 0x08
    then (without_last line, none)
    else (line ++ c ∷ [], none)

without_last-append : (cs : List ℕ) (c : ℕ) → without_last (cs ++ c ∷ []) ≡ cs
unfolding without_last
without_last-append [] c = refl
without_last-append (d ∷ []) c = refl
without_last-append (d ∷ e ∷ cs) c = ap (λ t. d ∷ t) (without_last-append (e ∷ cs) c)

-- A write at or behind the end of the line does not change it.
taken-put_char : (chars : ℕ → ℕ) (i c n : ℕ) → n ≤ i → taken (put_char i c chars) n ≡ taken chars n
unfolding taken put_char
taken-put_char chars i c zero h = refl
taken-put_char chars i c (suc n) h =
    let other : (n == i) ≡ false = ground arith in
    rw other (ap (λ t. t ++ chars n ∷ []) (taken-put_char chars i c n (omega arith)))

-- The buffer after a backspace.
taken-shorter :
    (chars : ℕ → ℕ) (n : ℕ)
    → n ≢ 0
    → taken (put_char (n - 1) 0 chars) (n - 1) ≡ without_last (taken chars n)
unfolding taken
taken-shorter chars zero h = absurd (h refl)
taken-shorter chars (suc n) h =
    let less : suc n - 1 ≡ n = omega arith in
    rw less (
      taken-put_char chars n 0 n (omega arith)
      ∙ sym (without_last-append (taken chars n) (chars n)))

taken-longer :
    (chars : ℕ → ℕ) (c n : ℕ) → taken (put_char n c chars) (n + 1) ≡ taken chars n ++ c ∷ []
unfolding taken put_char
taken-longer chars c n =
    let more : n + 1 ≡ suc n = omega arith in
    let self : (n == n) ≡ true = ground arith in
    rw (more, self) (ap (λ t. t ++ c ∷ []) (taken-put_char chars n c n (omega arith)))

type_char-edit :
    (c : ℕ) (st : Input)
    → (taken (type_char c st).0.chars (type_char c st).0.size, (type_char c st).1)
      ≡ edit c (taken st.chars st.size)
unfolding type_char edit
type_char-edit c st = elim (Bool-cases (c == 0x0a)) [
  | inl newline ↦ rw newline nothing
  | inr other ↦ elim (Bool-cases (c == 0x08)) [
    | inl back ↦ elim (Bool-cases (st.size == 0)) [
      | inl empty ↦
          let none_left : st.size ≡ 0 = ground (arith, empty) in
          rw (other, back, empty) (ap (λ t. (t, none)) (no_line none_left))
      | inr some_left ↦
          rw (other, back, some_left)
            (ap (λ t. (t, none)) (taken-shorter st.chars st.size (ground (arith, some_left))))
    ]
    | inr plain ↦ rw (other, plain) (ap (λ t. (t, none)) (taken-longer st.chars c st.size))
  ]
]
  where
    nothing :
        ◌≡◌ {A = List ℕ × Option (List ℕ)}
          (taken (put_char 0 0 (put_char st.size 0 st.chars)) 0, some (taken st.chars st.size))
          ([], some (taken st.chars st.size))
    nothing = unfold taken in refl

    no_line : st.size ≡ 0 → taken st.chars st.size ≡ without_last (taken st.chars st.size)
    no_line e = unfold taken without_last in rw e refl

type_char_bounds :
    (c : ℕ) (st : Input)
    → st.size < input_buffer_max_size - 1
    → ((type_char c st).0.size < input_buffer_max_size) × ((type_char c st).0.pressed ≡ st.pressed)
unfolding type_char input_buffer_max_size
type_char_bounds c st room = elim (Bool-cases (c == 0x0a)) [
  | inl newline ↦ rw newline (omega arith, refl)
  | inr other ↦ elim (Bool-cases (c == 0x08)) [
    | inl back ↦ elim (Bool-cases (st.size == 0)) [
      | inl empty ↦ rw (other, back, empty) (omega arith, refl)
      | inr some_left ↦ rw (other, back, some_left) (omega arith, refl)
    ]
    | inr plain ↦ rw (other, plain) (omega arith, refl)
  ]
]

-- While the line buffer is not full, a key that is translated to an ASCII character does to the buffer
-- what it does to a line in an editor: newline hands the line over and empties it, backspace takes the
-- last character off, any other is put at the end; the buffer does not overflow.
pub append_char-edit :
    (sc : ℕ) (st : Input)
    → st.size < input_buffer_max_size - 1
    → kbd_translate_hu sc < 128
    → (st' : Input) × (out : Option (List ℕ)) × (append_char sc st ≡ ok (st', out))
      × ((taken st'.chars st'.size, out) ≡ edit (kbd_translate_hu sc) (taken st.chars st.size))
      × (st'.size < input_buffer_max_size)
      × (st'.pressed ≡ st.pressed)
unfolding append_char input_buffer_max_size
append_char-edit sc st room ascii =
    let small : (kbd_translate_hu sc / 2 ^ 24 == 0) ≡ true = ground (arith, ascii) in
    let not_full : (st.size == 4095) ≡ false = ground (arith, room) in
    let plain : ltb (kbd_translate_hu sc) 128 ≡ true = ground (arith, ascii) in
    let (below, keys) = type_char_bounds (kbd_translate_hu sc) st room in
    (
      (type_char (kbd_translate_hu sc) st).0,
      (type_char (kbd_translate_hu sc) st).1,
      rw (small, not_full, plain) refl,
      type_char-edit (kbd_translate_hu sc) st,
      below,
      keys,
    )

kbd_translate_hu_bounds : (sc : ℕ) → sc < 256 → kbd_translate_hu sc < 2 ^ 24
unfolding kbd_translate_hu
kbd_translate_hu_bounds sc h = ground arith

-- In a full line buffer no key has an effect, backspace and newline included.
pub append_char-full :
    (sc : ℕ) (st : Input)
    → sc < 256
    → st.size ≡ input_buffer_max_size - 1
    → append_char sc st ≡ ok (st, none)
unfolding append_char input_buffer_max_size
append_char-full sc st byte full =
    let small : (kbd_translate_hu sc / 2 ^ 24 == 0) ≡ true =
      ground (arith, kbd_translate_hu_bounds sc byte) in
    let at_end : (st.size == 4095) ≡ true = ground (arith, full) in rw (small, at_end) refl
