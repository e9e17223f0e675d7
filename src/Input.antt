-- ===== src/Input.antt =====
-- The keyboard's line buffer of kernel/src/devmgr/input/input.cc. A key is its scan code, a u8; `chars` is
-- the buffer of 4096 bytes, and `pressed` the bitmap of the keys that are down. What is echoed on the
-- console is not part of the state; a line that is handed to the command line is returned.
pub mod Editor
use neptun_os.Base.{
  ℕ, zero, suc, ◌+◌, ◌-◌, ◌/◌, ◌^◌, Bool, true, false, not, Option, none, some, List, [], ◌∷◌, ◌++◌,
  Outcome, ok, fatal, ◌>>=◌, ltb, ◌==◌, if◌then◌else◌,
}
use neptun_os.Bitmap.{Bitmap, get_bit, set_bit}

pub record Input : Type 0 where
  pub chars : ℕ → ℕ
  pub size : ℕ
  pub pressed : Bitmap
  pub lastpressed_key : ℕ
  pub lastpressed_time : ℕ

unfoldable pub input_buffer_max_size : ℕ
input_buffer_max_size = 4096

-- The Hungarian layout.
unfoldable pub kbd_translate_hu : ℕ → ℕ
kbd_translate_hu c =
    if c == 0x5d
    then 0x151
    else if c == 0x5b
    then 0xfa
    else if c == 0x3b
    then 0xe9
    else if c == 0x27
    then 0xe1
    else if c == 0x5c
    then 0x171
    else if c == 0x2c
    then 0x2c
    else if c == 0x2e
    then 0x2e
    else if c == 0x2f
    then 0x2d
    else if c == 0x60
    then 0x30
    else if c == 0x30
    then 0xf6
    else if c == 0x2d
    then 0xfc
    else if c == 0x3d
    then 0xf3
    else c

-- `input_buffer[i] = c`
unfoldable pub put_char : (i c : ℕ) → (ℕ → ℕ) → ℕ → ℕ
put_char i c chars j = if j == i then c else chars j

-- the first bytes of the buffer
unfoldable pub taken : (ℕ → ℕ) → ℕ → List ℕ
taken chars zero = []
taken chars (suc n) = taken chars n ++ chars n ∷ []

-- What a character does to the buffer, and the line that it ends.
unfoldable pub type_char : (c : ℕ) → Input → Input × Option (List ℕ)
unfolding put_char
type_char c st =
    if c == 0x0a
    then (
      record st { chars = put_char 0 0 (put_char st.size 0 st.chars); size = 0 },
      some (taken st.chars st.size),
    )
    else if c == 0x08
    then (
      (if st.size == 0
          then st
          else record st { chars = put_char (st.size - 1) 0 st.chars; size = st.size - 1 }),
      none,
    )
    else (record st { chars = put_char st.size c st.chars; size = st.size + 1 }, none)

unfoldable pub append_char : (sc : ℕ) → Input → Outcome (Input × Option (List ℕ))
unfolding type_char input_buffer_max_size
append_char sc st =
    let c = kbd_translate_hu sc in
    if not (c / 2 ^ 24 == 0)
    then fatal
    else if st.size == input_buffer_max_size - 1
    then ok (st, none)
    else if not (ltb c 128)
    then ok (st, none)
    else ok (type_char c st)

unfoldable pub kbd_onrepeat : Input → Outcome (Input × Option (List ℕ))
unfolding append_char
kbd_onrepeat st = get_bit st.pressed st.lastpressed_key >>= λ down.
    if down then append_char st.lastpressed_key st else ok (st, none)

-- `now` is the timer's counter.
unfoldable pub kbd_press : (now c : ℕ) → Input → Outcome (Input × Option (List ℕ))
unfolding append_char
kbd_press now c st = get_bit st.pressed c >>= λ down.
    if down
    then ok (st, none)
    else (set_bit st.pressed c true >>= λ pressed.
        append_char c
          (record st { pressed = pressed; lastpressed_key = c; lastpressed_time = now }))

unfoldable pub kbd_release : (c : ℕ) → Input → Outcome Input
kbd_release c st = set_bit st.pressed c false >>= λ pressed. ok (record st { pressed = pressed })
