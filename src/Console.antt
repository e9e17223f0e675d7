-- ===== src/Console.antt =====
-- The text console of kernel/src/gfx/console.cc, once con_init has run: where the cursor goes, and which
-- pixels are written. Coordinates are u32. What is drawn is listed in order: a glyph or a cursor bar is
-- known by the place of its cell, and a scroll moves all lines up by one.
pub mod Screen
pub mod Glyphs
use neptun_os.Base.{
  ℕ, zero, suc, ◌+◌, ◌-◌, ◌*◌, ◌/◌, ◌%◌, ◌^◌, Bool, true, false, not, List, [], ◌∷◌, ◌++◌, Outcome,
  ok, fatal, ◌>>=◌, bit_and, leb, ltb, ◌==◌, if◌then◌else◌,
}
use neptun_os.Text.{Bytes}

-- The font, the padding between glyphs and the frame buffer.
pub record Display : Type 0 where
  pub glyphw : ℕ
  pub glyphh : ℕ
  pub padx : ℕ
  pub pady : ℕ
  pub width : ℕ
  pub height : ℕ

pub record Cursor : Type 0 where
  pub cx : ℕ
  pub cy : ℕ

pub data Event : Type 0 where
  glyph : (x y c : ℕ) → Event
  clear_cursor : (x y : ℕ) → Event
  put_cursor : (x y : ℕ) → Event
  scroll : Event

abbrev pub u32_mod : ℕ
u32_mod = 2 ^ 32

-- `a + b` and `a - b` of u32
abbrev pub add32 : ℕ → ℕ → ℕ
add32 a b = (a + b) % u32_mod

abbrev pub sub32 : ℕ → ℕ → ℕ
sub32 a b = (a + u32_mod - b) % u32_mod

abbrev pub tab_width : ℕ
tab_width = 8

module _ (d : Display) where
  -- the width and the height of a cell with its padding
  abbrev pub cell_width : ℕ
  cell_width = add32 d.glyphw d.padx

  abbrev pub cell_height : ℕ
  cell_height = add32 d.glyphh d.pady

  unfoldable pub con_scroll : Cursor → Cursor × List Event
  con_scroll s = (record s { cy = sub32 s.cy cell_height }, scroll ∷ [])

  -- con_putc('\n')
  unfoldable pub newline : Cursor → Cursor × List Event
  newline s =
      let below : Cursor = record { cx = 0; cy = add32 s.cy cell_height } in
      let (s', scrolled) : Cursor × List Event =
        if leb (sub32 d.height d.glyphh) below.cy then con_scroll below else (below, []) in
      (s', clear_cursor s.cx s.cy ∷ (scrolled ++ put_cursor s'.cx s'.cy ∷ []))

  -- A new line where the next glyph does not fit.
  unfoldable pub wrap : Cursor → Cursor × List Event
  wrap s = if ltb d.width (add32 s.cx cell_width) then newline s else (s, [])

  -- con_putc of a character with no case of its own
  unfoldable pub print : (c : ℕ) → Cursor → Cursor × List Event
  print c s =
      let (s1, wrapped) = wrap s in
      let s2 : Cursor = record s1 { cx = add32 s1.cx cell_width } in
      (s2, clear_cursor s.cx s.cy ∷ (wrapped ++ glyph s1.cx s1.cy c ∷ put_cursor s2.cx s2.cy ∷ []))

  unfoldable pub tab : Cursor → Cursor × List Event
  tab s =
      let stop = cell_width * tab_width % u32_mod in
      let s1 : Cursor = record s {
        cx = add32 (add32 s.cx cell_width) (sub32 stop 1) / stop * stop % u32_mod;
      } in
      let (s2, wrapped) = wrap s1 in
      (s2, clear_cursor s.cx s.cy ∷ (wrapped ++ put_cursor s2.cx s2.cy ∷ []))

  unfoldable pub backspace : Cursor → Cursor × List Event
  backspace s =
      let s1 : Cursor = record s { cx = sub32 s.cx cell_width } in
      let (s2, printed) = print b' ' s1 in
      let s3 : Cursor = record s2 { cx = sub32 s2.cx cell_width } in
      (
        s3,
        clear_cursor s.cx s.cy
            ∷ clear_cursor s.cx s.cy
            ∷ (printed ++ clear_cursor s2.cx s2.cy ∷ put_cursor s3.cx s3.cy ∷ []),
      )

  unfoldable pub con_putc : (c : ℕ) → Cursor → Cursor × List Event
  con_putc c s =
      if c == 10
      then newline s
      else if c == 9
      then tab s
      else if c == 8
      then backspace s
      else if c == 13
      then (record s { cx = 0 }, clear_cursor s.cx s.cy ∷ put_cursor 0 s.cy ∷ [])
      else print c s

  -- The loop of con_puts; the buffers are swapped behind it.
  unfoldable pub con_puts : Bytes → Cursor → Outcome (Cursor × List Event)
  con_puts [] s = fatal
  con_puts (c ∷ str) s = elim (c == 0) [
    | true ↦ ok (s, [])
    | false ↦
        let (s1, drawn) = con_putc c s in
        con_puts str s1 >>= λ (s2, others). ok (s2, drawn ++ others)
  ]

  unfoldable pub con_clear : Cursor → Cursor
  con_clear s = record { cx = 0; cy = 0 }

-- The pixels of one row of a glyph, set or not: `mask` is a u16 that is shifted left by 8 or 16 first.
unfoldable pub pixels_from : (n row mask : ℕ) → List Bool
pixels_from zero row mask = []
pixels_from (suc n) row mask = not (bit_and row mask == 0) ∷ pixels_from n row (mask / 2)

unfoldable pub row_pixels : (glyphw row : ℕ) → List Bool
unfolding pixels_from
row_pixels glyphw row = pixels_from glyphw row (2 ^ (if ltb 8 glyphw then 16 else 8) % 2 ^ 16)
