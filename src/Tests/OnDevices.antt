-- ===== src/Tests/OnDevices.antt =====
-- Archives, the line buffer and the interrupt vectors.
use neptun_os.Base.{
  ℕ, ◌≡◌, ◌<◌, refl, Option, none, List, [], ◌∷◌, ◌++◌, ok, arith, ◌==◌, if◌then◌else◌,
}
use neptun_os.Text.{Bytes, strlen, strlen_from, strncmp, strncmp_loop}
use neptun_os.Text.Copy.{drop}
use neptun_os.Vector.Resize.{replicate}
use neptun_os.Ustar.{UstarFile, at_header, ustar_lookup, ustar_list, ustar, oct2bin, padded_size}
use neptun_os.Ustar.Laws.{ustar_list-total, ustar_lookup-endless, octal, digit_chars}
use neptun_os.Input.{Input, taken, append_char, kbd_translate_hu, input_buffer_max_size}
use neptun_os.Input.Editor.{edit, append_char-edit}

-- The file "a" of 3 bytes, in an archive of one header and one block.
abbrev size_digits : List ℕ
size_digits = 0 ∷ 0 ∷ 0 ∷ 0 ∷ 0 ∷ 0 ∷ 0 ∷ 0 ∷ 0 ∷ 0 ∷ 3 ∷ []

abbrev archive : Bytes
archive =
    0x61 ∷ replicate 123 0
    ++ (0x30 ∷ 0x30 ∷ 0x30 ∷ 0x30 ∷ 0x30 ∷ 0x30 ∷ 0x30 ∷ 0x30 ∷ 0x30 ∷ 0x30 ∷ 0x33 ∷ 0 ∷ [])
    ++ replicate 121 0
    ++ ustar
    ++ replicate 1273 0

ustar_list_run :
    ustar_list 3 archive 1024 0 ≡ ok (record { name = 0; size = 3; address = 512 } ∷ [])
unfolding ustar_list strncmp strncmp_loop drop oct2bin padded_size
ustar_list_run = refl

ustar_list-total_example : (files : List UstarFile) × (ustar_list 3 archive 1024 0 ≡ ok files)
ustar_list-total_example = ustar_list-total 2 archive 1024 0 (omega arith) (omega arith)

ustar_lookup-endless_example : ustar_lookup (ok none) 1000 archive 1024 (0x62 ∷ 0 ∷ []) 0 ≡ ok none
unfolding at_header strncmp strncmp_loop drop octal digit_chars strlen strlen_from
ustar_lookup-endless_example =
    ustar_lookup-endless (ok none) 1000 archive 1024 (0x62 ∷ 0 ∷ []) 0 1 size_digits
      (replicate 121 0 ++ ustar ++ replicate 1273 0) refl refl (omega arith) (omega arith) refl refl
      refl

-- The line "ab"
abbrev typing : Input
typing = record {
  chars = λ i. if i == 0 then 0x61 else 0x62;
  size = 2;
  pressed = record { buffer = 0 ∷ []; sz = 64 };
  lastpressed_key = 0;
  lastpressed_time = 0;
}

append_char-edit_example :
    (st' : Input) × (out : Option (List ℕ)) × (append_char 0x08 typing ≡ ok (st', out))
    × ((taken st'.chars st'.size, out) ≡ edit 0x08 (0x61 ∷ 0x62 ∷ []))
    × (st'.size < 4096)
    × (st'.pressed ≡ typing.pressed)
unfolding kbd_translate_hu input_buffer_max_size taken
append_char-edit_example = append_char-edit 0x08 typing (omega arith) (omega arith)
