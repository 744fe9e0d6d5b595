-- ===== src/Input/Queue.antt =====
-- An input queue of RADKernel/core/RADKernel_runtime.cpp against a bounded queue that forgets its
-- oldest event when it is full.
use radpx_os.Base.{
  ℕ, zero, suc, ◌+◌, ◌-◌, ◌%◌, ◌≤◌, ◌<◌, ◌≡◌, refl, sym, ap, ◌∙◌, true, false, List, [], ◌∷◌, ◌++◌,
  arith, leb, ◌==◌, if_elim, length, set, length-append, length-set, get_or, take, drop,
}
use native.Mathlib.Nat.{mod-add-mod}
use radpx_os.Base.Ring.{window, window_of_pos, step-add, window-set, length-window, step-lt}
use radpx_os.Input.{Event, zero_event, InputQueue, queue_events, put_event, push, drop_event, drain}

-- The indices stay inside the ring, and the head is `size` entries past the tail.
pub record IsValid (q : InputQueue) : Type 0 where
  pub whole : length q.events ≡ queue_events
  pub bounded : q.capacity ≤ queue_events
  pub inside : q.tail < q.capacity
  pub fits : q.size ≤ q.capacity
  pub ahead : q.head ≡ (q.tail + q.size) % q.capacity

-- The events in the queue, oldest first.
abbrev pub contents : InputQueue → List Event
contents q = window zero_event q.capacity q.events q.tail q.size

-- The last `n` events of a list.
abbrev pub newest : ℕ → List Event → List Event
newest n es = drop (length es - n) es

-- A queue that has lost its oldest event.
drop_event-IsValid : (q : InputQueue) → IsValid q → 0 < q.size → IsValid (drop_event q)
drop_event-IsValid q v some_held = record {
  whole = v.whole;
  bounded = v.bounded;
  inside = step-lt q.capacity q.tail v.inside;
  fits = omega (arith, v.fits);
  ahead =
      let again : q.tail + q.size ≡ q.tail + suc (q.size - 1) = omega arith in
      v.ahead ∙ ap (λ n. n % q.capacity) again ∙ sym (step-add q.capacity q.tail (q.size - 1));
}

drop_event-contents :
    (q : InputQueue)
    → 0 < q.size
    → contents q ≡ get_or q.events q.tail zero_event ∷ contents (drop_event q)
drop_event-contents q some_held =
    window_of_pos zero_event q.capacity q.events q.tail q.size some_held

put_event-IsValid :
    (q : InputQueue) (e : Event) → IsValid q → q.size < q.capacity → IsValid (put_event q e)
put_event-IsValid q e v room = record {
  whole = length-set q.events q.head e ∙ v.whole;
  bounded = v.bounded;
  inside = v.inside;
  fits = omega (arith, v.fits);
  ahead =
      let more : q.tail + q.size + 1 ≡ q.tail + (q.size + 1) = omega arith in
      rw (v.ahead, mod-add-mod) (ap (λ n. n % q.capacity) more);
}

put_event-contents :
    (q : InputQueue) (e : Event)
    → IsValid q
    → q.size < q.capacity
    → contents (put_event q e) ≡ contents q ++ e ∷ []
put_event-contents q e v room =
    ap (window zero_event q.capacity (set q.events q.head e) q.tail) {x = q.size + 1}
      {y = suc q.size} (omega arith)
    ∙ window-set zero_event q.capacity q.events e q.size q.tail q.head
        (omega (arith, v.whole, v.bounded)) v.inside room v.ahead

length-contents : (q : InputQueue) → length (contents q) ≡ q.size
length-contents q = length-window zero_event q.capacity q.events q.tail q.size

contents-empty : (q : InputQueue) → q.size ≡ 0 → contents q ≡ []
contents-empty q e = ap (window zero_event q.capacity q.events q.tail) e

-- A push to a valid queue appends the event, and a queue that was full forgets its oldest event:
-- what it holds is the newest events, as many as its capacity. It stays valid.
pub push-newest :
    (q : InputQueue) (e : Event)
    → IsValid q
    → IsValid (push q e) × (contents (push q e) ≡ newest q.capacity (contents q ++ e ∷ []))
unfolding push
push-newest q e v =
    let P = λ (r : InputQueue).
      IsValid (put_event r e)
      × (contents (put_event r e) ≡ newest q.capacity (contents q ++ e ∷ [])) in
    if_elim P (leb q.capacity q.size) (λ h. full h) (λ h. spare h)
  where
    longer : length (contents q ++ e ∷ []) ≡ q.size + 1
    longer = length-append (contents q) (e ∷ []) ∙ ap (λ n. n + 1) (length-contents q)

    spare :
        leb q.capacity q.size ≡ false
        → IsValid (put_event q e)
          × (contents (put_event q e) ≡ newest q.capacity (contents q ++ e ∷ []))
    spare h =
        let room : q.size < q.capacity = ground arith in
        let none_over : length (contents q ++ e ∷ []) - q.capacity ≡ 0 = omega (arith, longer) in
        (put_event-IsValid q e v room, rw none_over (put_event-contents q e v room))

    full :
        leb q.capacity q.size ≡ true
        → IsValid (put_event (drop_event q) e)
          × (contents (put_event (drop_event q) e) ≡ newest q.capacity (contents q ++ e ∷ []))
    full h =
        let held : 0 < q.size = ground (arith, v.inside) in
        let room : q.size - 1 < q.capacity = omega (arith, v.fits) in
        let over : length (contents q ++ e ∷ []) - q.capacity ≡ 1 =
          ground (arith, longer, v.fits) in
        let rest = drop_event-IsValid q v held in
        (
          put_event-IsValid (drop_event q) e rest room,
          rw (over, drop_event-contents q held) (put_event-contents (drop_event q) e rest room),
        )

-- A read of a valid queue takes the oldest events, as many as there is room for, and leaves the
-- others in order. The queue stays valid.
pub drain-takes :
    (room : ℕ) (q : InputQueue)
    → IsValid q
    → IsValid (drain q room).1
      × ((drain q room).0 ≡ take room (contents q))
      × (contents (drain q room).1 ≡ drop room (contents q))
unfolding drain
drain-takes zero q v = (v, refl, refl)
drain-takes (suc room) q v =
    let P = λ (r : List Event × InputQueue).
      IsValid r.1
      × (r.0 ≡ take (suc room) (contents q))
      × (contents r.1 ≡ drop (suc room) (contents q)) in
    if_elim P (q.size == 0)
      (λ h.
        (v, rw (contents-empty q (ground arith)) refl, rw (contents-empty q (ground arith)) refl))
      (λ h.
        let held : 0 < q.size = ground arith in
        let (valid, taken, left) = drain-takes room (drop_event q) (drop_event-IsValid q v held) in
        rw (drop_event-contents q held)
          (valid, ap (λ es. get_or q.events q.tail zero_event ∷ es) taken, left))
