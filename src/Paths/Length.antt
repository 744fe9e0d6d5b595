-- ===== src/Paths/Length.antt =====
-- The length of what normalize_path of RADKernel/core/RADKernel_runtime.cpp writes.
use radpx_os.Base.{
  ℕ, ◌+◌, ◌-◌, ◌<◌, ◌≡◌, inl, inr, List, [], ◌∷◌, ◌++◌, arith, ltb, ltb→lt, Bool-cases, length,
  length-append, take, length-take, CString,
}
use radpx_os.Paths.{slash, parts_of, room_for, write_parts, normalize_path}

length-room_for :
    (size : ℕ) (out s : CString) → length out < size → length (room_for size out s) < size
length-room_for size out s fits =
    let e = length-append out (take (size - 1 - length out) s) in
    let l = length-take (size - 1 - length out) s in omega (arith, e, l, fits)

length-write_parts :
    (size i : ℕ) (out : CString) (parts : List CString)
    → length out < size
    → length (write_parts size i out parts) < size
unfolding write_parts
length-write_parts size i out [] fits = fits
length-write_parts size i out (part ∷ parts) fits = elim (Bool-cases (ltb (length out + 1) size)) [
  | inr full ↦ rw full fits
  | inl room ↦
      let lt = ltb→lt (length out + 1) size room in
      let longer : length (out ++ slash ∷ []) ≡ length out + 1 = length-append out (slash ∷ []) in
      elim (Bool-cases (ltb 0 i)) [
        | inl later ↦
            let short : length (out ++ slash ∷ []) < size = omega (arith, longer, lt) in
            rw (room, later)
              (length-write_parts size (i + 1) (room_for size (out ++ slash ∷ []) part) parts
                (length-room_for size (out ++ slash ∷ []) part short))
        | inr first ↦
            rw (room, first)
              (length-write_parts size (i + 1) (room_for size out part) parts
                (length-room_for size out part fits))
      ]
]

-- A text that fits its buffer, with the zero behind it.
pub length-normalize_path :
    (size : ℕ) (cwd path : CString) → 1 < size → length (normalize_path size cwd path) < size
unfolding normalize_path
length-normalize_path size cwd path room =
    length-write_parts size 0 (slash ∷ []) (parts_of cwd path) room
