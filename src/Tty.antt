-- ===== src/Tty.antt =====
-- The terminals of RADKernel/core/RADKernel_runtime.cpp: `TtyRecord`, `PtyRecord`, the bounded buffers
-- and the line discipline. A buffer is the list of the bytes it holds, the first `size` bytes of the
-- array in the code, which reads no others. `sent` is what the output callbacks were given, with the
-- index of the terminal. A record is named by its index, `none` for a null pointer.
pub mod Cooking
pub mod Reading
use radpx_os.Base.{
  ℕ, ◌-◌, Bool, true, false, not, ◌&&◌, ◌||◌, Option, none, some, List, [], ◌∷◌, ◌++◌, ltb, leb,
  ◌==◌, if◌then◌else◌, length, set, get_or, take, drop, find_index, count, CString, copy_string,
  text_eq, Status, ok, invalid_argument, Result, value, fail,
}
use Prim.Native.Nat.{bit_and, bit_or}

-- RAD_KERNEL_TTY_BUFFER_BYTES, RAD_KERNEL_TTY_LINE_BYTES and the size of a name.
abbrev pub tty_buffer_bytes : ℕ
tty_buffer_bytes = 1024

abbrev pub tty_line_bytes : ℕ
tty_line_bytes = 256

abbrev pub tty_name_size : ℕ
tty_name_size = 64

-- The three modes, and the two queues to flush.
abbrev pub mode_canonical : ℕ
mode_canonical = 1

abbrev pub mode_echo : ℕ
mode_echo = 2

abbrev pub mode_crlf : ℕ
mode_crlf = 4

abbrev pub flush_input : ℕ
flush_input = 1

abbrev pub flush_output : ℕ
flush_output = 2

-- `word & mask` as a condition.
abbrev pub has : ℕ → ℕ → Bool
has word mask = not (bit_and word mask == 0)

pub record Termios : Type 0 where
  pub input_flags : ℕ
  pub output_flags : ℕ
  pub control_flags : ℕ
  pub local_flags : ℕ
  pub input_speed : ℕ
  pub output_speed : ℕ
  pub control_chars : List ℕ

-- The control characters from index 0 on, with those that are not set left out at the end.
abbrev pub default_tty_termios : Termios
default_tty_termios = record {
  input_flags = 4;
  output_flags = 1;
  control_flags = 0;
  local_flags = bit_or (bit_or (bit_or 1 2) 8) 16;
  input_speed = 9600;
  output_speed = 9600;
  control_chars = 3 ∷ 4 ∷ 127 ∷ 1 ∷ 0 ∷ 21 ∷ [];
}

unfoldable pub tty_mode_from_termios : Termios → ℕ
tty_mode_from_termios t =
    let canonical = if has t.local_flags 1 then mode_canonical else 0 in
    let echo = if has t.local_flags 2 then mode_echo else 0 in
    let crlf = if has t.input_flags 4 then mode_crlf else 0 in bit_or (bit_or canonical echo) crlf

pub record TtyRecord : Type 0 where
  pub name : CString
  pub input : List ℕ
  pub line : List ℕ
  pub output : List ℕ
  pub mode : ℕ
  pub termios : Termios
  pub rows : ℕ
  pub columns : ℕ
  pub x_pixels : ℕ
  pub y_pixels : ℕ
  pub has_output : Bool
  pub pty_id : ℕ
  pub used : Bool

pub record PtyRecord : Type 0 where
  pub id : ℕ
  pub master : List ℕ
  pub used : Bool

pub record Terminals : Type 0 where
  pub ttys : List TtyRecord
  pub ptys : List PtyRecord
  pub sent : List (ℕ × List ℕ)

abbrev pub zero_termios : Termios
zero_termios = record {
  input_flags = 0;
  output_flags = 0;
  control_flags = 0;
  local_flags = 0;
  input_speed = 0;
  output_speed = 0;
  control_chars = [];
}

abbrev pub zero_tty : TtyRecord
zero_tty = record {
  name = [];
  input = [];
  line = [];
  output = [];
  mode = 0;
  termios = zero_termios;
  rows = 0;
  columns = 0;
  x_pixels = 0;
  y_pixels = 0;
  has_output = false;
  pty_id = 0;
  used = false;
}

abbrev pub zero_pty : PtyRecord
zero_pty = record { id = 0; master = []; used = false }

abbrev pub tty_at : Terminals → ℕ → TtyRecord
tty_at s t = get_or s.ttys t zero_tty

abbrev pub put_tty : Terminals → ℕ → TtyRecord → Terminals
put_tty s t r = record s { ttys = set s.ttys t r }

-- `buffer_append`: what does not fit is dropped.
abbrev pub buffer_append : ℕ → List ℕ → List ℕ → List ℕ
buffer_append capacity held bytes = held ++ take (capacity - length held) bytes

-- `buffer_take`: the bytes copied out, and what stays in the buffer.
abbrev pub buffer_take : ℕ → List ℕ → List ℕ × List ℕ
buffer_take size held =
    let count = if ltb size (length held) then size else length held in
    (take count held, drop count held)

abbrev pub is_tty : CString → TtyRecord → Bool
is_tty name r = r.used && text_eq r.name name

unfoldable pub find_tty : Terminals → CString → Option ℕ
find_tty s name = find_index (is_tty name) s.ttys

abbrev is_unused : TtyRecord → Bool
is_unused r = not r.used

abbrev fresh_tty : CString → TtyRecord
fresh_tty name = record zero_tty {
  used = true;
  name = copy_string tty_name_size name;
  termios = default_tty_termios;
  mode = tty_mode_from_termios default_tty_termios;
  rows = 30;
  columns = 120;
  x_pixels = 960;
  y_pixels = 480;
}

-- A null name and an empty one are one here: both are refused.
unfoldable pub ensure_tty : Terminals → CString → Option ℕ × Terminals
unfolding find_tty
ensure_tty s name = elim (find_tty s name) [
  | some t ↦ (some t, s)
  | none ↦ if length name == 0 then (none, s) else elim (find_index is_unused s.ttys) [
    | none ↦ (none, s)
    | some t ↦ (some t, put_tty s t (fresh_tty name))
  ]
]

abbrev pub has_id : ℕ → PtyRecord → Bool
has_id id p = p.used && (p.id == id)

-- The master side of the pseudo-terminal `id`, if there is one.
unfoldable pub change_master : List PtyRecord → ℕ → (List ℕ → List ℕ) → List PtyRecord
change_master ptys id f = if id == 0 then ptys else elim (find_index (has_id id) ptys) [
  | none ↦ ptys
  | some i ↦
      set ptys i (record (get_or ptys i zero_pty) { master = f (get_or ptys i zero_pty).master })
]

abbrev drop_input : TtyRecord → TtyRecord
drop_input r = record r { input = []; line = [] }

unfoldable pub tty_flush_record : Terminals → Option ℕ → ℕ → Status × Terminals
unfolding change_master
tty_flush_record s none queues = (invalid_argument, s)
tty_flush_record s (some t) queues =
    let q = if queues == 0 then bit_or flush_input flush_output else queues in
    let s1 = if has q flush_input then put_tty s t (drop_input (tty_at s t)) else s in
    let r = tty_at s1 t in
    if has q flush_output
    then (
      ok,
      record s1 {
        ttys = set s1.ttys t (record r { output = [] });
        ptys = change_master s1.ptys r.pty_id (λ held. []);
      },
    )
    else (ok, s1)

-- `append_tty_output`, once the record is known.
unfoldable pub append_tty_output : Terminals → ℕ → List ℕ → Terminals
unfolding change_master
append_tty_output s t bytes =
    let r = tty_at s t in
    record s {
      ttys = set s.ttys t (record r { output = buffer_append tty_buffer_bytes r.output bytes });
      ptys = change_master s.ptys r.pty_id (λ held. buffer_append tty_buffer_bytes held bytes);
    }

-- The output callback, which is called where there is one and something to send.
abbrev pub send : Terminals → ℕ → List ℕ → Terminals
send s t bytes =
    if (tty_at s t).has_output && not (length bytes == 0)
    then record s { sent = s.sent ++ ((t, bytes) ∷ []) }
    else s

-- `there` says that the caller's buffer is not null.
unfoldable pub tty_read_record : Terminals → Option ℕ → Bool → ℕ → Result (List ℕ) × Terminals
tty_read_record s none there size = (fail invalid_argument, s)
tty_read_record s (some t) there size =
    let (taken, rest) = buffer_take size (tty_at s t).input in
    if not there && not (size == 0)
    then (fail invalid_argument, s)
    else (value taken, put_tty s t (record (tty_at s t) { input = rest }))

unfoldable pub tty_write_record : Terminals → Option ℕ → Bool → List ℕ → Result ℕ × Terminals
unfolding append_tty_output
tty_write_record s none there bytes = (fail invalid_argument, s)
tty_write_record s (some t) there bytes =
    if not there && not (length bytes == 0)
    then (fail invalid_argument, s)
    else (value (length bytes), send (append_tty_output s t bytes) t bytes)

-- The state of the loop of `tty_push_input_record`.
pub record Edit : Type 0 where
  pub line : List ℕ
  pub input : List ℕ
  pub echo : List ℕ

-- `isprint`, in the C locale.
abbrev pub isprint : ℕ → Bool
isprint c = leb 32 c && leb c 126

abbrev pub echoed : Bool → List ℕ → List ℕ → List ℕ
echoed on held bytes = if on then buffer_append tty_line_bytes held bytes else held

-- Backspace and delete, carriage return as newline, and the bytes that a line keeps.
abbrev pub is_erase : ℕ → Bool
is_erase c = (c == 8) || (c == 127)

abbrev pub is_kept : ℕ → Bool
is_kept c = isprint c || (c == 9)

abbrev pub newline_of : ℕ → ℕ
newline_of c = if c == 13 then 10 else c

abbrev pub erase : Bool → Edit → Edit
erase echo e = if length e.line == 0 then e else record e {
  line = take (length e.line - 1) e.line;
  echo = echoed echo e.echo (8 ∷ 32 ∷ 8 ∷ []);
}

abbrev pub finish_line : Bool → Edit → Edit
finish_line echo e = record e {
  input = buffer_append tty_buffer_bytes (buffer_append tty_buffer_bytes e.input e.line) (10 ∷ []);
  line = [];
  echo = echoed echo e.echo (10 ∷ []);
}

unfoldable pub push_byte : Bool → Bool → Edit → ℕ → Edit
push_byte canonical echo e c =
    let ch = newline_of c in
    if is_erase ch && canonical
    then erase echo e
    else if canonical
    then if ch == 10
      then finish_line echo e
      else if is_kept ch
      then record e {
        line = buffer_append tty_line_bytes e.line (ch ∷ []);
        echo = echoed echo e.echo (ch ∷ []);
      }
      else e
    else record e {
      input = buffer_append tty_buffer_bytes e.input (ch ∷ []);
      echo = echoed echo e.echo (ch ∷ []);
    }

unfoldable pub push_bytes : Bool → Bool → Edit → List ℕ → Edit
unfolding push_byte
push_bytes canonical echo e [] = e
push_bytes canonical echo e (c ∷ cs) = push_bytes canonical echo (push_byte canonical echo e c) cs

abbrev pub edit_of : TtyRecord → Edit
edit_of r = record { line = r.line; input = r.input; echo = [] }

-- The line and the input after the bytes, and what is to be echoed.
unfoldable pub typed : TtyRecord → List ℕ → Edit
unfolding push_bytes
typed r bytes = push_bytes (has r.mode mode_canonical) (has r.mode mode_echo) (edit_of r) bytes

abbrev pub edited : TtyRecord → Edit → TtyRecord
edited r e = record r { line = e.line; input = e.input }

unfoldable pub show_echo : Terminals → ℕ → List ℕ → Terminals
unfolding append_tty_output
show_echo s t echo = send (if length echo == 0 then s else append_tty_output s t echo) t echo

unfoldable pub tty_push_input_record : Terminals → Option ℕ → Bool → List ℕ → Result ℕ × Terminals
unfolding typed show_echo
tty_push_input_record s none there bytes = (fail invalid_argument, s)
tty_push_input_record s (some t) there bytes =
    let r = tty_at s t in
    let e = typed r bytes in
    if not there && not (length bytes == 0)
    then (fail invalid_argument, s)
    else (value (length bytes), show_echo (put_tty s t (edited r e)) t e.echo)
