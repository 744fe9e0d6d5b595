-- ===== src/Base/Ring.antt =====
-- Circular buffers: the entries that a ring holds, oldest first, and what a write at the end, a read
-- at the front, and copies in two pieces round the end do to them.
use radpx_os.Base.Lists.{length, get_or, set, take, drop, length-set}
use radpx_os.Base.Scan.{get_or-set_self, get_or-set_ne}
use native.Mathlib.Nat.{mod-add-mod, mod-eq_of_lt, mod-eq-sub-mod, mod_self}
use mathlib.Core.List.{List, [], ◌∷◌, ◌++◌, append-nil, append_assoc}
use Prim.Native.Nat.{ℕ, zero, suc, ◌+◌, ◌-◌, ◌%◌, ◌≤◌, ◌<◌}
use mathlib.Core.Path.{◌≡◌, refl, sym, ap, ap₂, ◌∙◌}
use native.Mathlib.Decide.{dec_lt, dec_le}
use mathlib.Core.Logic.{◌⊎◌, inl, inr}
use native.Mathlib.Omega.{arith}

-- The next index, inside the ring.
pub step_cases :
    (cap h : ℕ)
    → h < cap
    → ((suc h < cap) × ((h + 1) % cap ≡ suc h)) ⊎ ((suc h ≡ cap) × ((h + 1) % cap ≡ 0))
step_cases cap h lt = elim (dec_lt (suc h) cap) [
  | yes p ↦ inl (p, omega (arith, mod-eq_of_lt {n = h + 1} {m = cap} (omega arith)))
  | no p ↦ inr (
    omega arith,
    omega (
      arith,
      mod-eq-sub-mod {n = h + 1} {m = cap} (omega arith),
      mod-eq_of_lt {n = h + 1 - cap} {m = cap} (omega arith),
    ),
  )
]

pub step-lt : (cap h : ℕ) → h < cap → (h + 1) % cap < cap
step-lt cap h lt = omega (arith, step_cases cap h lt)

pub step-add : (cap h n : ℕ) → ((h + 1) % cap + n) % cap ≡ (h + suc n) % cap
step-add cap h n = rw mod-add-mod (ap (λ k. k % cap) (omega arith))

-- Going on by less than a whole round ends somewhere else.
pub offset-ne : (cap start k : ℕ) → start < cap → suc k < cap → ¬ ((start + suc k) % cap ≡ start)
offset-ne cap start k inside short back =
    let stop = start + suc k in
    elim (dec_le cap stop) [
      | yes over ↦
          let once = mod-eq-sub-mod {n = stop} {m = cap} over in
          let rest = mod-eq_of_lt {n = stop - cap} {m = cap} (omega arith) in
          omega (arith, back, once, rest)
      | no under ↦ omega (arith, back, mod-eq_of_lt {n = stop} {m = cap} (omega arith))
    ]

module _ {ℓ} {A : Type ℓ} where
  -- `memcpy(dst + off, src, n)`, where `src` is the list of the bytes copied.
  abbrev pub copy_in : List A → ℕ → List A → List A
  copy_in dst off [] = dst
  copy_in dst off (x ∷ xs) = copy_in (set dst off x) (suc off) xs

  -- `memcpy(dst, src + off, n)`
  abbrev pub copy_out : List A → ℕ → ℕ → List A
  copy_out src off n = take n (drop off src)

  pub length-copy_in :
      (dst : List A) (off : ℕ) (xs : List A) → length (copy_in dst off xs) ≡ length dst
  length-copy_in dst off [] = refl
  length-copy_in dst off (x ∷ xs) =
      length-copy_in (set dst off x) (suc off) xs ∙ length-set dst off x

  module _ (d : A) (cap : ℕ) where
    -- The `n` entries from index `h` on, going round at `cap`.
    abbrev pub window : List A → ℕ → ℕ → List A
    window buf h zero = []
    window buf h (suc n) = get_or buf h d ∷ window buf ((h + 1) % cap) n

    -- One entry after another, going round at `cap`.
    abbrev pub ring_in : List A → ℕ → List A → List A
    ring_in buf w [] = buf
    ring_in buf w (x ∷ xs) = ring_in (set buf w x) ((w + 1) % cap) xs

    pub length-window : (buf : List A) (h n : ℕ) → length (window buf h n) ≡ n
    length-window buf h zero = refl
    length-window buf h (suc n) = ap suc (length-window buf ((h + 1) % cap) n)

    -- The window matches on a successor, the code tests its count.
    pub window_of_pos :
        (buf : List A) (h n : ℕ)
        → 0 < n
        → window buf h n ≡ get_or buf h d ∷ window buf ((h + 1) % cap) (n - 1)
    window_of_pos buf h zero p = absurd (omega arith)
    window_of_pos buf h (suc n) p =
        ap (λ k. get_or buf h d ∷ window buf ((h + 1) % cap) k) (omega arith)

    pub window-add :
        (buf : List A) (h a b : ℕ)
        → h < cap
        → window buf h (a + b) ≡ window buf h a ++ window buf ((h + a) % cap) b
    window-add buf h zero b lt =
        ap₂ (window buf) (omega (arith, mod-eq_of_lt {n = h + 0} {m = cap} (omega arith)))
          (omega arith)
    window-add buf h (suc a) b lt =
        let e : suc a + b ≡ suc (a + b) = omega arith in
        rw (e, window-add buf ((h + 1) % cap) a b (step-lt cap h lt), step-add cap h a) refl

    -- A write into the slot behind the last entry appends to the window.
    pub window-set :
        (buf : List A) (v : A) (fill start slot : ℕ)
        → cap ≤ length buf
        → start < cap
        → fill < cap
        → slot ≡ (start + fill) % cap
        → window (set buf slot v) start (suc fill) ≡ window buf start fill ++ v ∷ []
    window-set buf v zero start slot whole inside room at_end =
        ap (λ y. y ∷ []) (rw (at_end, no_offset) (get_or-set_self buf start v d (omega arith)))
      where
        no_offset : (start + 0) % cap ≡ start
        no_offset = omega (arith, mod-eq_of_lt {n = start + 0} {m = cap} (omega arith))
    window-set buf v (suc fill) start slot whole inside room at_end =
        ap₂ ◌∷◌
          (get_or-set_ne buf slot start v d (rw at_end (offset-ne cap start fill inside room)))
          (window-set buf v fill ((start + 1) % cap) slot whole (step-lt cap start inside)
            (omega arith) (at_end ∙ sym (step-add cap start fill)))

    window_unwritten :
        (buf : List A) (v : A) (fill at slot : ℕ)
        → ((k : ℕ) → k < fill → ¬ (slot ≡ (at + k) % cap))
        → at < cap
        → window (set buf slot v) at fill ≡ window buf at fill
    window_unwritten buf v zero at slot off inside = refl
    window_unwritten buf v (suc fill) at slot off inside =
        let here : (at + 0) % cap ≡ at =
          omega (arith, mod-eq_of_lt {n = at + 0} {m = cap} (omega arith)) in
        ap₂ ◌∷◌ (get_or-set_ne buf slot at v d (λ e. off 0 (omega arith) (e ∙ sym here))) (
          window_unwritten buf v fill ((at + 1) % cap) slot
            (λ k lt e. off (suc k) (omega arith) (e ∙ step-add cap at k)) (step-lt cap at inside))

    -- A write into the slot before a window that does not reach round to it leaves the window.
    pub window-set_ne :
        (buf : List A) (v : A) (fill slot : ℕ)
        → slot < cap
        → fill < cap
        → window (set buf slot v) ((slot + 1) % cap) fill ≡ window buf ((slot + 1) % cap) fill
    window-set_ne buf v fill slot inside short =
        window_unwritten buf v fill ((slot + 1) % cap) slot
          (λ k lt e. offset-ne cap slot k inside (omega arith) (sym (step-add cap slot k) ∙ sym e))
          (step-lt cap slot inside)

    -- Entries written one after another behind the window are appended to it.
    pub window-ring_in :
        (xs buf : List A) (h n w : ℕ)
        → cap ≤ length buf
        → h < cap
        → n + length xs ≤ cap
        → w ≡ (h + n) % cap
        → window (ring_in buf w xs) h (n + length xs) ≡ window buf h n ++ xs
    window-ring_in [] buf h n w fits hh room e =
        ap (window buf h) (omega arith) ∙ sym (append-nil (window buf h n))
    window-ring_in (x ∷ xs) buf h n w fits hh room e =
        ap (window (ring_in (set buf w x) ((w + 1) % cap) xs) h) (omega arith)
        ∙ window-ring_in xs (set buf w x) h (suc n) ((w + 1) % cap) (rw (length-set buf w x) fits)
            hh (omega arith) (rw (e, mod-add-mod) (ap (λ k. k % cap) (omega arith)))
        ∙ ap (λ ys. ys ++ xs) (window-set buf x n h w fits hh (omega arith) e)
        ∙ append_assoc (window buf h n) (x ∷ []) xs

    pub ring_in-append :
        (xs ys buf : List A) (w : ℕ)
        → w < cap
        → ring_in buf w (xs ++ ys) ≡ ring_in (ring_in buf w xs) ((w + length xs) % cap) ys
    ring_in-append [] ys buf w lt =
        ap (λ k. ring_in buf k ys) (omega (arith, mod-eq_of_lt {n = w + 0} {m = cap} (omega arith)))
    ring_in-append (x ∷ xs) ys buf w lt =
        ring_in-append xs ys (set buf w x) ((w + 1) % cap) (step-lt cap w lt)
        ∙ ap (λ k. ring_in (ring_in (set buf w x) ((w + 1) % cap) xs) k ys)
            (step-add cap w (length xs))

    -- A copy that does not reach the end of the buffer does not go round.
    pub copy_in-eq-ring_in :
        (xs buf : List A) (w : ℕ)
        → w < cap
        → w + length xs ≤ cap
        → copy_in buf w xs ≡ ring_in buf w xs
    copy_in-eq-ring_in [] buf w lt room = refl
    copy_in-eq-ring_in (x ∷ []) buf w lt room = refl
    copy_in-eq-ring_in (x ∷ y ∷ ys) buf w lt room =
        copy_in-eq-ring_in (y ∷ ys) (set buf w x) (suc w) (omega arith) (omega arith)
        ∙ ap (λ k. ring_in (set buf w x) k (y ∷ ys))
            (omega (arith, mod-eq_of_lt {n = w + 1} {m = cap} (omega arith)))

    -- Two copies, up to the end of the buffer and on from its start, write round the ring.
    pub copy_in_two :
        (xs ys buf : List A) (w : ℕ)
        → w < cap
        → w + length xs ≤ cap
        → (ys ≡ []) ⊎ (w + length xs ≡ cap)
        → length ys ≤ cap
        → copy_in (copy_in buf w xs) 0 ys ≡ ring_in buf w (xs ++ ys)
    copy_in_two xs [] buf w lt room end short =
        copy_in-eq-ring_in xs buf w lt room ∙ ap (ring_in buf w) (sym (append-nil xs))
    copy_in_two xs (y ∷ ys) buf w lt room (inl e) short = cc
    copy_in_two xs (y ∷ ys) buf w lt room (inr e) short =
        ap (λ b. copy_in b 0 (y ∷ ys)) (copy_in-eq-ring_in xs buf w lt room)
        ∙ copy_in-eq-ring_in (y ∷ ys) (ring_in buf w xs) 0 (omega arith) (omega arith)
        ∙ ap (λ k. ring_in (ring_in buf w xs) k (y ∷ ys)) (rw (e, mod_self) refl)
        ∙ sym (ring_in-append xs (y ∷ ys) buf w lt)

    take-drop :
        (buf : List A) (h n : ℕ)
        → h < length buf
        → take (suc n) (drop h buf) ≡ get_or buf h d ∷ take n (drop (suc h) buf)
    take-drop [] h n lt = absurd (omega arith)
    take-drop (x ∷ xs) zero n lt = refl
    take-drop (x ∷ xs) (suc h) n lt = take-drop xs h n (omega arith)

    -- A copy out that stays inside the buffer is the window.
    pub copy_out-eq-window :
        (n : ℕ) (buf : List A) (h : ℕ)
        → cap ≤ length buf
        → h < cap
        → h + n ≤ cap
        → copy_out buf h n ≡ window buf h n
    copy_out-eq-window zero buf h fits lt room = refl
    copy_out-eq-window (suc zero) buf h fits lt room = take-drop buf h 0 (omega arith)
    copy_out-eq-window (suc (suc n)) buf h fits lt room =
        take-drop buf h (suc n) (omega arith)
        ∙ ap (◌∷◌ (get_or buf h d)) (
            copy_out-eq-window (suc n) buf (suc h) fits (omega arith) (omega arith)
            ∙ ap (λ k. window buf k (suc n))
                (omega (arith, mod-eq_of_lt {n = h + 1} {m = cap} (omega arith))))

    -- Two copies out, up to the end and on from the start, read round the ring.
    pub copy_out_two :
        (a b : ℕ) (buf : List A) (h : ℕ)
        → cap ≤ length buf
        → h < cap
        → h + a ≤ cap
        → (b ≡ 0) ⊎ (h + a ≡ cap)
        → b ≤ cap
        → copy_out buf h a ++ copy_out buf 0 b ≡ window buf h (a + b)
    copy_out_two a zero buf h fits lt room end short =
        append-nil (copy_out buf h a)
        ∙ copy_out-eq-window a buf h fits lt room
        ∙ ap (window buf h) (omega arith)
    copy_out_two a (suc b) buf h fits lt room (inl e) short = absurd (omega arith)
    copy_out_two a (suc b) buf h fits lt room (inr e) short =
        ap₂ ◌++◌ (copy_out-eq-window a buf h fits lt room) (
          copy_out-eq-window (suc b) buf 0 fits (omega arith) (omega arith)
          ∙ ap (λ k. window buf k (suc b)) (rw (e, mod_self) refl))
        ∙ sym (window-add buf h a (suc b) lt)
