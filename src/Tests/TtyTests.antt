-- ===== src/Tests/TtyTests.antt =====
-- Terminals of RADKernel/core/RADKernel_runtime.cpp at concrete input.
use radpx_os.Base.{ℕ, ◌≡◌, refl, true, some, List, [], ◌∷◌, ◌++◌, arith, take, drop, codes, value}
use radpx_os.Tty.{Terminals, zero_tty, zero_pty, tty_at, tty_push_input_record, tty_read_record}
use radpx_os.Tty.Cooking.{cook, tty_push_input_record-cook}
use radpx_os.Tty.Reading.{type_then_read}

-- One terminal in canonical mode with echo, on which "l" has been typed.
abbrev console : Terminals
console = record {
  ttys =
      record zero_tty {
        used = true;
        name = codes "tty0";
        mode = 3;
        line = codes "l";
        has_output = true;
      }
      ∷ [];
  ptys = zero_pty ∷ [];
  sent = [];
}

-- "x", an erasure, "s", a carriage return, "p".
abbrev typed : List ℕ
typed = 120 ∷ 127 ∷ 115 ∷ 13 ∷ 112 ∷ []

-- The line is "ls", and "p" is open.
cook_example : cook (codes "l") typed ≡ (codes "ls" ++ (10 ∷ []), codes "p")
unfolding cook
cook_example = refl

tty_push_input_record-cook_example :
    let after = tty_at (tty_push_input_record console (some 0) true typed).1 0 in
    let (lines, pending) = cook (tty_at console 0).line typed in
    (after.input ≡ (tty_at console 0).input ++ lines) × (after.line ≡ pending)
tty_push_input_record-cook_example =
    tty_push_input_record-cook console 0 typed (omega arith) refl (omega arith) (omega arith)

type_then_read_example :
    let (lines, pending) = cook (tty_at console 0).line typed in
    let (result, after) =
      tty_read_record (tty_push_input_record console (some 0) true typed).1 (some 0) true 2 in
    (result ≡ value (take 2 lines)) × ((tty_at after 0).input ≡ drop 2 lines)
type_then_read_example = type_then_read console 0 2 typed (omega arith) refl refl (omega arith)
