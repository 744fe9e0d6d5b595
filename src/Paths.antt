-- ===== src/Paths.antt =====
-- Paths of RADKernel/core/RADKernel_runtime.cpp: normalize_path, is_child_name and parent_path. A path
-- is the list of its bytes; the current directory, `g_state.cwd`, is an argument.
pub mod Canonical
pub mod Rendering
pub mod Parents
pub mod Pieces
pub mod Resolving
pub mod Length
use radpx_os.Base.{
  [], ℕ, zero, suc, ◌+◌, ◌-◌, Bool, false, not, ◌&&◌, ◌||◌, Option, none, some, List, ◌∷◌, ◌++◌,
  ltb, ◌==◌, if◌then◌else◌, length, get_or, take, CString, copy_string, text_eq,
}

-- The sizes of `joined` and `scratch`, and of `parts`.
abbrev pub joined_size : ℕ
joined_size = 160

abbrev pub max_parts : ℕ
max_parts = 16

abbrev pub slash : ℕ
slash = b'/'

-- `cwd[0] ? cwd : "/"`
abbrev pub base_of : CString → CString
base_of [] = slash ∷ []
base_of (c ∷ cs) = c ∷ cs

abbrev pub starts_with_slash : CString → Bool
starts_with_slash [] = false
starts_with_slash (c ∷ cs) = c == slash

-- A copy of at most as many bytes as `joined` still has room for.
abbrev pub append_bounded : CString → CString → CString
append_bounded out s = out ++ take (joined_size - 1 - length out) s

abbrev pub with_slash : CString → CString
with_slash out =
    if ltb 1 (length out)
      && not (get_or out (length out - 1) 0 == slash)
      && ltb (length out + 1) joined_size
    then out ++ slash ∷ []
    else out

-- The path that is taken apart.
unfoldable pub joined_path : CString → CString → CString
joined_path cwd path =
    if starts_with_slash path
    then copy_string joined_size path
    else append_bounded (with_slash (append_bounded [] (base_of cwd))) path

abbrev pub or_cwd : CString → CString → CString
or_cwd cwd [] = base_of cwd
or_cwd cwd (c ∷ cs) = c ∷ cs

unfoldable pub skip_slashes : CString → CString
skip_slashes [] = []
skip_slashes (c ∷ cs) = if c == slash then skip_slashes cs else c ∷ cs

-- The bytes before the next slash, and those behind it.
unfoldable pub part_of : CString → CString
part_of [] = []
part_of (c ∷ cs) = if c == slash then [] else c ∷ part_of cs

unfoldable pub after_part : CString → CString
after_part [] = []
after_part (c ∷ cs) = if c == slash then cs else after_part cs

abbrev pub dot : CString
dot = b'.' ∷ []

abbrev pub dot_dot : CString
dot_dot = b'.' ∷ b'.' ∷ []

abbrev pub add_part : List CString → CString → List CString
add_part parts part =
    if text_eq part dot
    then parts
    else if text_eq part dot_dot
    then take (length parts - 1) parts
    else parts ++ part ∷ []

-- The loop that takes the text apart. Each round takes a byte at least.
unfoldable pub collect_parts : ℕ → CString → List CString → List CString
unfolding skip_slashes part_of after_part text_eq
collect_parts zero text parts = parts
collect_parts (suc rounds) text parts = elim (skip_slashes text) [
  | [] ↦ parts
  | c ∷ cs ↦
      let rest = collect_parts rounds (after_part (c ∷ cs)) (add_part parts (part_of (c ∷ cs))) in
      if ltb (length parts) max_parts then rest else parts
]

abbrev pub room_for : ℕ → CString → CString → CString
room_for size out s = out ++ take (size - 1 - length out) s

-- The loop that writes the parts; `i` is 0 for the first.
unfoldable pub write_parts : ℕ → ℕ → CString → List CString → CString
write_parts size i out [] = out
write_parts size i out (part ∷ parts) =
    let slashed = if ltb 0 i && ltb (length out + 1) size then out ++ slash ∷ [] else out in
    let rest = write_parts size (i + 1) (room_for size slashed part) parts in
    if ltb (length out + 1) size then rest else out

unfoldable pub parts_of : CString → CString → List CString
unfolding joined_path collect_parts
parts_of cwd path =
    let joined = joined_path cwd (or_cwd cwd path) in collect_parts (length joined) joined []

unfoldable pub normalize_path : ℕ → CString → CString → CString
unfolding parts_of write_parts
normalize_path size cwd path = write_parts size 0 (slash ∷ []) (parts_of cwd path)

unfoldable pub has_slash : CString → Bool
has_slash [] = false
has_slash (c ∷ cs) = (c == slash) || has_slash cs

-- `strncmp(path, prefix, strlen(prefix)) == 0`, and what follows.
unfoldable pub behind : CString → CString → Option CString
behind [] path = some path
behind (c ∷ prefix) [] = none
behind (c ∷ prefix) (d ∷ path) = if c == d then behind prefix path else none

abbrev pub name_behind_slash : CString → Option CString
name_behind_slash [] = none
name_behind_slash (c ∷ name) =
    if not (c == slash) || (length name == 0) || has_slash name then none else some name

-- The name of the child, where it is one.
unfoldable pub is_child_name : CString → CString → Option CString
unfolding has_slash behind text_eq
is_child_name parent path =
    if text_eq parent (slash ∷ [])
    then name_behind_slash path
    else elim (behind parent path) [ none ↦ none | some rest ↦ name_behind_slash rest ]

-- The text before the last slash, none where there is no slash.
unfoldable pub before_last_slash : CString → Option CString
before_last_slash [] = none
before_last_slash (c ∷ cs) = elim (before_last_slash cs) [
  | some front ↦ some (c ∷ front)
  | none ↦ if c == slash then some [] else none
]

abbrev pub or_root : CString → CString
or_root [] = slash ∷ []
or_root (c ∷ cs) = c ∷ cs

unfoldable pub parent_path : ℕ → CString → CString
unfolding before_last_slash
parent_path size path = elim (before_last_slash (copy_string size path)) [
  | none ↦ copy_string size (slash ∷ [])
  | some front ↦ copy_string size (or_root front)
]
