-- ===== src/Console/Screen.antt =====
-- Where the console draws: kernel/src/gfx/console.cc.
use native.Mathlib.Nat.{div-mul-le_self}
use neptun_os.Base.{
  ℕ, ◌+◌, ◌-◌, ◌*◌, ◌/◌, ◌%◌, ◌^◌, ◌≤◌, ◌<◌, ◌≡◌, ◌≢◌, ◌⊎◌, refl, inl, inr, false, List, [], ◌∷◌,
  ◌++◌, ok, leb, ltb, ◌==◌, Bool-cases, arith,
}
use neptun_os.Text.{Bytes}
use neptun_os.Text.Compare.{c_string}
use neptun_os.Console.{
  Display, Cursor, Event, glyph, clear_cursor, put_cursor, scroll, add32, sub32, con_scroll,
  cell_width, cell_height, tab_width, u32_mod, newline, wrap, print, tab, backspace, con_putc,
  con_puts,
}

-- At least one cell and one line fit, and sums of coordinates do not wrap.
pub record IsUsable (d : Display) : Type 0 where
  pub some_width : 0 < d.glyphw
  pub some_height : 0 < d.glyphh
  pub one_cell : d.glyphw + d.padx ≤ d.width
  pub two_lines : 2 * d.glyphh + d.pady < d.height
  pub below_width : d.width < 2 ^ 24
  pub below_height : d.height < 2 ^ 24

-- The cursor stands at a line that is whole, and at most at the right edge of the screen, where the next
-- glyph goes to a new line.
pub record IsInside (d : Display) (s : Cursor) : Type 0 where
  pub column : s.cx ≤ d.width
  pub line : s.cy + d.glyphh < d.height

-- Each glyph that is drawn lies on the screen; the bars of the cursor are left out.
abbrev pub AreOnScreen : Display → List Event → Type 0
AreOnScreen d [] = Unit
AreOnScreen d (glyph x y c ∷ es) =
    (x + d.glyphw ≤ d.width) × (y + d.glyphh < d.height) × AreOnScreen d es
AreOnScreen d (e ∷ es) = AreOnScreen d es

AreOnScreen-append :
    (d : Display) (es fs : List Event)
    → AreOnScreen d es
    → AreOnScreen d fs
    → AreOnScreen d (es ++ fs)
AreOnScreen-append d [] fs a b = b
AreOnScreen-append d (glyph x y c ∷ es) fs (column, line, a) b =
    (column, line, AreOnScreen-append d es fs a b)
AreOnScreen-append d (clear_cursor x y ∷ es) fs a b = AreOnScreen-append d es fs a b
AreOnScreen-append d (put_cursor x y ∷ es) fs a b = AreOnScreen-append d es fs a b
AreOnScreen-append d (scroll ∷ es) fs a b = AreOnScreen-append d es fs a b

-- A cursor and what was drawn on the way to it.
abbrev pub IsSafe : Display → Cursor × List Event → Type 0
IsSafe d (s, es) = IsInside d s × AreOnScreen d es

-- No terminator and no backspace.
abbrev pub IsText : Bytes → Type 0
IsText [] = Unit
IsText (c ∷ str) = (c ≢ 0) × (c ≢ 8) × IsText str

module _ (d : Display) (u : IsUsable d) where
  newline-IsSafe :
      (s : Cursor) → s.cy + d.glyphh < d.height → IsSafe d (newline d s) × ((newline d s).0.cx ≡ 0)
  unfolding newline con_scroll
  newline-IsSafe s line =
      let down : add32 s.cy (cell_height d) ≡ s.cy + (d.glyphh + d.pady) = omega arith in
      let limit : sub32 d.height d.glyphh ≡ d.height - d.glyphh = omega arith in
      elim (Bool-cases (leb (d.height - d.glyphh) (s.cy + (d.glyphh + d.pady)))) [
        | inl full ↦
            let up : sub32 (s.cy + (d.glyphh + d.pady)) (cell_height d) ≡ s.cy = omega arith in
            rw (down, limit, full, up) ((record { column = omega arith; line = line }, tt), refl)
        | inr free ↦
            rw (down, limit, free)
              ((record { column = omega arith; line = ground (arith, free) }, tt), refl)
      ]

  wrap-IsSafe :
      (s : Cursor)
      → s.cy + d.glyphh < d.height
      → s.cx + (d.glyphw + d.padx) < 2 ^ 32
      → IsSafe d (wrap d s) × ((wrap d s).0.cx + (d.glyphw + d.padx) ≤ d.width)
  unfolding wrap
  wrap-IsSafe s line fits =
      let next : add32 s.cx (cell_width d) ≡ s.cx + (d.glyphw + d.padx) = omega arith in
      elim (Bool-cases (ltb d.width (s.cx + (d.glyphw + d.padx)))) [
        | inl full ↦
            let (safe, start) = newline-IsSafe s line in
            rw (next, full) (safe, omega (arith, start))
        | inr free ↦
            rw (next, free)
              ((record { column = ground (arith, free); line = line }, tt), ground (arith, free))
      ]

  print-IsSafe :
      (c : ℕ) (s : Cursor)
      → s.cy + d.glyphh < d.height
      → s.cx + (d.glyphw + d.padx) < 2 ^ 32
      → IsSafe d (print d c s) × ((print d c s).0.cx ≡ (wrap d s).0.cx + (d.glyphw + d.padx))
  unfolding print
  print-IsSafe c s line fits =
      let ((inside, drawn), room) = wrap-IsSafe s line fits in
      let next : add32 (wrap d s).0.cx (cell_width d) ≡ (wrap d s).0.cx + (d.glyphw + d.padx) =
        omega arith in
      (
        (
          record { column = omega (arith, next); line = inside.line },
          AreOnScreen-append d (wrap d s).1 _ drawn (omega arith, inside.line, tt),
        ),
        next,
      )

  tab-IsSafe : (s : Cursor) → IsInside d s → IsSafe d (tab d s)
  unfolding tab
  tab-IsSafe s i =
      let stop = cell_width d * tab_width % u32_mod in
      let x = add32 (add32 s.cx (cell_width d)) (sub32 stop 1) / stop * stop % u32_mod in
      let s1 : Cursor = record s { cx = x } in
      let least = div-mul-le_self (add32 (add32 s.cx (cell_width d)) (sub32 stop 1)) stop in
      let ((inside, drawn), room) = wrap-IsSafe s1 i.line (omega (arith, least)) in
      (inside, AreOnScreen-append d (wrap d s1).1 _ drawn tt)

  backspace-IsSafe :
      (s : Cursor) → IsInside d s → d.glyphw + d.padx ≤ s.cx → IsSafe d (backspace d s)
  unfolding backspace wrap
  backspace-IsSafe s i room =
      let s1 : Cursor = record s { cx = sub32 s.cx (cell_width d) } in
      let back : s1.cx ≡ s.cx - (d.glyphw + d.padx) = omega arith in
      let ((inside, drawn), next) = print-IsSafe b' ' s1 i.line (omega arith) in
      let s2 = (print d b' ' s1).0 in
      let left : sub32 s2.cx (cell_width d) ≤ d.width = omega (arith, inside.column, next) in
      (
        record { column = left; line = inside.line },
        AreOnScreen-append d (print d b' ' s1).1 _ drawn tt,
      )

  -- From a cursor on the screen, with a backspace only behind a whole cell, con_putc draws each glyph on the
  -- screen and leaves the cursor on it.
  pub con_putc-IsSafe :
      (c : ℕ) (s : Cursor)
      → IsInside d s
      → (c ≢ 8) ⊎ (d.glyphw + d.padx ≤ s.cx)
      → IsSafe d (con_putc d c s)
  unfolding con_putc
  con_putc-IsSafe c s i back =
      let fits : s.cx + (d.glyphw + d.padx) < 2 ^ 32 = omega (arith, i.column) in
      let carriage : IsInside d (record s { cx = 0 }) = record {
        column = omega arith;
        line = i.line;
      } in
      elim (Bool-cases (c == 10)) [
        | inl nl ↦ rw nl (newline-IsSafe s i.line).0
        | inr no_nl ↦ elim (Bool-cases (c == 9)) [
          | inl ht ↦ rw (no_nl, ht) (tab-IsSafe s i)
          | inr no_ht ↦ elim (Bool-cases (c == 8)) [
            | inl bs ↦ rw (no_nl, no_ht, bs) (backspace-IsSafe s i (ground (arith, bs, back)))
            | inr no_bs ↦ elim (Bool-cases (c == 13)) [
              | inl cr ↦ rw (no_nl, no_ht, no_bs, cr) (carriage, tt)
              | inr no_cr ↦ rw (no_nl, no_ht, no_bs, no_cr) (print-IsSafe c s i.line fits).0
            ]
          ]
        ]
      ]

  -- On a display that has room for a cell and for two lines, from a cursor that stands on the screen,
  -- con_puts of a text without backspaces draws each glyph on the screen and leaves the cursor in a
  -- line that is whole, at most at the right edge of it, however long the text is; the bar of the
  -- cursor is not counted as a glyph.
  pub con_puts-IsSafe :
      (str behind : Bytes) (s : Cursor)
      → IsText str
      → IsInside d s
      → (r : Cursor × List Event) × (con_puts d (c_string str behind) s ≡ ok r) × IsSafe d r
  unfolding con_puts
  con_puts-IsSafe [] behind s text i = ((s, []), refl, (i, tt))
  con_puts-IsSafe (c ∷ str) behind s (more, no_bs, text) i =
      let (inside, drawn) = con_putc-IsSafe c s i (inl no_bs) in
      let (r, others, (inside', drawn')) =
        con_puts-IsSafe str behind (con_putc d c s).0 text inside in
      let on : (c == 0) ≡ false = ground (arith, more) in
      (
        (r.0, (con_putc d c s).1 ++ r.1),
        rw (on, con_puts) (rw others refl),
        (inside', AreOnScreen-append d (con_putc d c s).1 r.1 drawn drawn'),
      )

  print_fits :
      (c : ℕ) (s : Cursor)
      → s.cx + (d.glyphw + d.padx) ≤ d.width
      → (print d c s).0 ≡ record { cx = s.cx + (d.glyphw + d.padx); cy = s.cy }
  unfolding print wrap
  print_fits c s room =
      let next : add32 s.cx (cell_width d) ≡ s.cx + (d.glyphw + d.padx) = omega arith in
      let free : ltb d.width (s.cx + (d.glyphw + d.padx)) ≡ false = ground (arith, room) in
      rw (next, free) (rw next refl)

  backspace_fits :
      (s : Cursor)
      → s.cx + (d.glyphw + d.padx) ≤ d.width
      → (backspace d (record { cx = s.cx + (d.glyphw + d.padx); cy = s.cy })).0 ≡ s
  unfolding backspace
  backspace_fits s room =
      let back : sub32 (s.cx + (d.glyphw + d.padx)) (cell_width d) ≡ s.cx = omega arith in
      rw back (rw (print_fits b' ' s room, back) refl)

  -- On a display that has room for a cell and for two lines, a backspace takes the cursor back to where
  -- it stood before a character above 13 that fitted into the line.
  pub con_putc-erase :
      (c : ℕ) (s : Cursor)
      → 13 < c
      → s.cx + (d.glyphw + d.padx) ≤ d.width
      → (con_putc d 8 (con_putc d c s).0).0 ≡ s
  unfolding con_putc
  con_putc-erase c s printable room =
      let no_nl : (c == 10) ≡ false = ground arith in
      let no_ht : (c == 9) ≡ false = ground arith in
      let no_bs : (c == 8) ≡ false = ground arith in
      let no_cr : (c == 13) ≡ false = ground arith in
      rw (no_nl, no_ht, no_bs, no_cr, print_fits c s room) (backspace_fits s room)

  print_under :
      (cy : ℕ)
      → print d b' ' (record { cx = 2 ^ 32 - (d.glyphw + d.padx); cy = cy }) ≡ (
        record { cx = 0; cy = cy },
        clear_cursor (2 ^ 32 - (d.glyphw + d.padx)) cy
            ∷ glyph (2 ^ 32 - (d.glyphw + d.padx)) cy b' '
            ∷ put_cursor 0 cy
            ∷ [],
      )
  unfolding print wrap
  print_under cy =
      let over : add32 (2 ^ 32 - (d.glyphw + d.padx)) (cell_width d) ≡ 0 = omega arith in
      let free : ltb d.width 0 ≡ false = ground arith in rw (over, free) (rw over refl)

  -- On a display that has room for a cell and for two lines, a backspace in the first column draws a
  -- glyph outside of the screen and leaves the cursor there.
  pub con_putc-first_column :
      (cy : ℕ)
      → ((con_putc d 8 (record { cx = 0; cy = cy })).0.cx ≡ 2 ^ 32 - (d.glyphw + d.padx))
        × ¬ AreOnScreen d (con_putc d 8 (record { cx = 0; cy = cy })).1
  unfolding con_putc backspace
  con_putc-first_column cy =
      let under : sub32 0 (cell_width d) ≡ 2 ^ 32 - (d.glyphw + d.padx) = omega arith in
      rw (under, print_under cy) (under, λ h. absurd (off_screen h.0))
    where
      off_screen : 2 ^ 32 - (d.glyphw + d.padx) + d.glyphw ≤ d.width → ⊥
      off_screen h = omega (arith, h)
