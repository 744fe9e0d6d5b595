-- ===== src/Work/Fifo.antt =====
-- The work queue of RADKernel/core/RADKernel_runtime.cpp against a queue of items.
use radpx_os.Base.{
  ℕ, zero, suc, ◌+◌, ◌-◌, ◌%◌, ◌≤◌, ◌<◌, ◌≡◌, refl, sym, ap, ◌∙◌, not, List, [], ◌∷◌, ◌++◌, arith,
  leb, ◌==◌, inl, inr, Bool-cases, if◌then◌else◌, if_elim, length, set, length-set, get_or, take,
  drop, CString, Status, ok,
}
use native.Mathlib.Nat.{mod-add-mod}
use radpx_os.Base.Ring.{window, window_of_pos, window-set, window-set_ne, step-add, step-lt}
use radpx_os.Work.{
  WorkItem, zero_item, WorkQueue, max_work_items, work_item, append_item, rad_work_submit,
  take_item, Handler, run_item, poll_rounds,
}

-- The tail is `size` items past the head.
pub record IsSound (q : WorkQueue) : Type 0 where
  pub whole : length q.items ≡ max_work_items
  pub inside : q.head < max_work_items
  pub fits : q.size ≤ max_work_items
  pub ahead : q.tail ≡ (q.head + q.size) % max_work_items

-- The items that wait, oldest first.
abbrev pub pending : WorkQueue → List WorkItem
pending q = window zero_item max_work_items q.items q.head q.size

append_item-IsSound :
    (q : WorkQueue) (item : WorkItem)
    → IsSound q
    → q.size < max_work_items
    → IsSound (append_item q item) × (pending (append_item q item) ≡ pending q ++ item ∷ [])
append_item-IsSound q item v room = (
  record {
    whole = length-set q.items q.tail item ∙ v.whole;
    inside = v.inside;
    fits = omega arith;
    ahead =
        let more : q.head + q.size + 1 ≡ q.head + (q.size + 1) = omega arith in
        rw (v.ahead, mod-add-mod) (ap (λ n. n % max_work_items) more);
  },
  ap (window zero_item max_work_items (set q.items q.tail item) q.head) {x = q.size + 1}
        {y = suc q.size} (omega arith)
      ∙ window-set zero_item max_work_items q.items item q.size q.head q.tail
          (omega (arith, v.whole)) v.inside room v.ahead,
)

take_item-IsSound :
    (q : WorkQueue)
    → IsSound q
    → 0 < q.size
    → IsSound (take_item q) × (pending q ≡ get_or q.items q.head zero_item ∷ pending (take_item q))
take_item-IsSound q v held = (
  record {
    whole = length-set q.items q.head zero_item ∙ v.whole;
    inside = step-lt max_work_items q.head v.inside;
    fits = omega (arith, v.fits);
    ahead =
        let again : q.head + q.size ≡ q.head + suc (q.size - 1) = omega arith in
        v.ahead
        ∙ ap (λ n. n % max_work_items) again
        ∙ sym (step-add max_work_items q.head (q.size - 1));
  },
  window_of_pos zero_item max_work_items q.items q.head q.size held
      ∙ ap (λ xs. get_or q.items q.head zero_item ∷ xs)
          (sym (
            window-set_ne zero_item max_work_items q.items zero_item (q.size - 1) q.head v.inside
              (omega (arith, v.fits)))),
)

-- The rest of the system after what the items do, in their order; an item with no handler does
-- nothing.
unfoldable pub run_all : {W : Type 0} → (WorkItem → W → W) → List WorkItem → W → W
run_all act [] w = w
run_all act (item ∷ items) w = run_all act items (if item.handler == 0 then w else act item w)

-- A poll of a sound queue, with handlers that leave the queue alone and act on the rest of the
-- system, has the oldest items act, as many as its rounds and as there are, in their order; it
-- counts them and leaves the others as they were; the queue stays sound.
pub poll_rounds-runs :
    {W : Type 0} (rounds : ℕ) (handle : Handler W) (act : WorkItem → W → W) (w : W) (q : WorkQueue)
    → ((item : WorkItem) (u : W) (r : WorkQueue) → handle item u r ≡ (act item u, r))
    → IsSound q
    → let (count, (w', q')) = poll_rounds handle w q rounds in
      IsSound q'
      × (count ≡ length (take rounds (pending q)))
      × (w' ≡ run_all act (take rounds (pending q)) w)
      × (pending q' ≡ drop rounds (pending q))
unfolding poll_rounds run_all
poll_rounds-runs zero handle act w q quiet v = (v, refl, refl, refl)
poll_rounds-runs {W = W} (suc rounds) handle act w q quiet v =
    let P = λ (r : ℕ × (W × WorkQueue)).
      IsSound r.1.1
      × (r.0 ≡ length (take (suc rounds) (pending q)))
      × (r.1.0 ≡ run_all act (take (suc rounds) (pending q)) w)
      × (pending r.1.1 ≡ drop (suc rounds) (pending q)) in
    let item = get_or q.items q.head zero_item in
    let w' = if item.handler == 0 then w else act item w in
    if_elim P (q.size == 0)
      (λ h.
        let empty = pending-empty q (ground arith) in
        (v, rw empty refl, rw empty refl, rw empty refl))
      (λ h.
        let (sound, first) = take_item-IsSound q v (ground arith) in
        let (valid, counted, acted, left) =
          poll_rounds-runs rounds handle act w' (take_item q) quiet sound in
        rw (runs item w (take_item q), first) (valid, ap suc counted, acted, left))
  where
    pending-empty : (q : WorkQueue) → q.size ≡ 0 → pending q ≡ []
    pending-empty q e = ap (window zero_item max_work_items q.items q.head) e

    runs :
        (item : WorkItem) (w : W) (q : WorkQueue)
        → run_item handle item w q ≡ (if item.handler == 0 then w else act item w, q)
    runs item w q = elim (Bool-cases (item.handler == 0)) [
      | inl e ↦ rw e refl
      | inr e ↦ rw e (quiet item w q)
    ]

-- What a call of `rad_work_submit` may come to: the item waits behind the others, or nothing changes.
abbrev pub SubmitFits : WorkQueue → CString → ℕ → ℕ → Status × WorkQueue → Type 0
SubmitFits q name handler context (ok, q') =
    (q.size < max_work_items)
    × (0 < handler)
    × IsSound q'
    × (pending q' ≡ pending q ++ work_item name handler context ∷ [])
SubmitFits q name handler context (_, q') = q' ≡ q

-- `rad_work_submit` on a sound queue either succeeds, with room and a handler that is not null,
-- and appends the item behind those that wait; or it fails and changes nothing.
pub rad_work_submit-SubmitFits :
    (q : WorkQueue) (name : CString) (handler context : ℕ)
    → IsSound q
    → SubmitFits q name handler context (rad_work_submit q name handler context)
unfolding rad_work_submit
rad_work_submit-SubmitFits q name handler context v =
    let P = SubmitFits q name handler context in
    if_elim P (handler == 0) (λ h. refl)
      (λ h.
        if_elim P (not q.initialized) (λ i. refl)
          (λ i.
            if_elim P (leb max_work_items q.size) (λ f. refl)
              (λ f.
                let room : q.size < max_work_items = ground arith in
                let (sound, appended) =
                  append_item-IsSound q (work_item name handler context) v room in
                (room, ground arith, sound, appended))))
