-- ===== src/Paths/Overruns.antt =====
-- What path_sanitize does to the block of its string: kernel/src/fs/fs.cc.
use neptun_os.Base.{ℕ, ◌%◌, ◌<◌, ◌≡◌, refl, Bool, false, fatal, ◌>>=◌, ◌==◌, [], ◌∷◌, length, arith}
use neptun_os.Text.{Bytes}
use neptun_os.Text.Compare.{NoZero, c_string, strlen_lem}
use neptun_os.Vector.Whole.{empty}
use neptun_os.Vector.Laws.{Holds, reserve-Holds}
use neptun_os.Vector.Copies.{empty-Holds}
use neptun_os.Strings.{String}
use neptun_os.Strings.Overruns.{push_char-overrun}
use neptun_os.Paths.{sanitize_from, path_sanitize}

-- path_sanitize of a terminated path that is not empty writes a terminator behind the block of its string
-- with the first byte that it adds, however much room it has asked for.
pub path_sanitize-overrun :
    (in_place : Bool) (c : ℕ) (s behind : Bytes)
    → NoZero (c ∷ s)
    → path_sanitize in_place (c_string (c ∷ s) behind) ≡ fatal
unfolding path_sanitize sanitize_from
path_sanitize-overrun in_place c s behind (plain, n) =
    let len = length (c ∷ s) % 256 in
    let small : len < 256 = omega arith in
    let (v, grown, h, cap, size) =
      reserve-Holds 1 in_place len empty [] empty-Holds (omega arith) (omega arith)
        (omega (arith, small)) in
    let letter : (c == 0) ≡ false = ground (arith, plain) in
    let start : String = record v { size = 0 } in
    let held : Holds start [] = record {
      sized = refl;
      room = omega arith;
      block = h.block;
      null_empty = h.null_empty;
      cells = λ i p. absurd (omega (arith, p));
    } in
    rw (strlen_lem (c ∷ s) behind (plain, n), ◌>>=◌)
      (rw (grown, ◌>>=◌)
        (rw (letter, sanitize_from)
          (rw (push_char-overrun in_place c start [] held (omega arith), ◌>>=◌) refl)))
