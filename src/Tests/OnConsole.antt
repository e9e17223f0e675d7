-- ===== src/Tests/OnConsole.antt =====
-- The console.
use neptun_os.Base.{◌+◌, ◌-◌, ◌^◌, ◌≡◌, List, [], ◌∷◌, ok, arith}
use neptun_os.Console.{Display, Cursor, Event, con_putc, con_puts}
use neptun_os.Console.Screen.{
  IsUsable, IsSafe, AreOnScreen, con_puts-IsSafe, con_putc-erase, con_putc-first_column,
}

abbrev vga : Display
vga = record { glyphw = 8; glyphh = 16; padx = 1; pady = 2; width = 640; height = 480 }

vga-IsUsable : IsUsable vga
vga-IsUsable = record {
  some_width = omega arith;
  some_height = omega arith;
  one_cell = omega arith;
  two_lines = omega arith;
  below_width = omega arith;
  below_height = omega arith;
}

abbrev origin : Cursor
origin = record { cx = 0; cy = 0 }

-- "a", a tab, a new line and "b"
con_puts-IsSafe_example :
    (r : Cursor × List Event) × (con_puts vga (0x61 ∷ 9 ∷ 10 ∷ 0x62 ∷ 0 ∷ []) origin ≡ ok r)
    × IsSafe vga r
con_puts-IsSafe_example =
    con_puts-IsSafe vga vga-IsUsable (0x61 ∷ 9 ∷ 10 ∷ 0x62 ∷ []) [] origin
      (
        omega arith,
        omega arith,
        (omega arith, omega arith, (omega arith, omega arith, (omega arith, omega arith, tt))),
      )
      (record { column = omega arith; line = omega arith })

con_putc-erase_example : (con_putc vga 8 (con_putc vga 0x61 origin).0).0 ≡ origin
con_putc-erase_example = con_putc-erase vga vga-IsUsable 0x61 origin (omega arith) (omega arith)

con_putc-first_column_example :
    ((con_putc vga 8 origin).0.cx ≡ 2 ^ 32 - (8 + 1)) × ¬ AreOnScreen vga (con_putc vga 8 origin).1
con_putc-first_column_example = con_putc-first_column vga vga-IsUsable 0
