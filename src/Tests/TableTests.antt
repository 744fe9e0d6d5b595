-- ===== src/Tests/TableTests.antt =====
-- Input queues, the log and the interrupts of RADKernel/core/RADKernel_runtime.cpp at concrete tables.
use radpx_os.Base.{
  ℕ, ◌≡◌, refl, true, none, some, List, [], ◌∷◌, ◌++◌, arith, length, take, drop, replicate,
  find_index, codes, ok, not_supported,
}
use radpx_os.Input.{Event, zero_event, InputQueue, zero_queue, push, drain}
use radpx_os.Input.Queue.{IsValid, contents, newest, push-newest, drain-takes}
use radpx_os.Log.{rad_log_read}
use radpx_os.Log.Window.{Message, log_all, empty_log, numbered, passed_over, log_then_read}
use radpx_os.Irq.{Irqs, zero_irq, Handled, rad_irq_register, rad_irq_switch, rad_irq_dispatch}
use radpx_os.Irq.Dispatch.{register_then_dispatch}

abbrev key : ℕ → Event
key code = record zero_event { code = code; pressed = 1 }

-- A full queue of two events that has gone round.
abbrev full_queue : InputQueue
full_queue = record zero_queue {
  events = key 2 ∷ key 1 ∷ replicate 62 zero_event;
  head = 1;
  tail = 1;
  size = 2;
  capacity = 2;
  used = true;
}

full_queue-IsValid : IsValid full_queue
full_queue-IsValid = record {
  whole = refl;
  bounded = omega arith;
  inside = omega arith;
  fits = omega arith;
  ahead = refl;
}

push-newest_example :
    IsValid (push full_queue (key 3))
    × (contents (push full_queue (key 3)) ≡ newest 2 (contents full_queue ++ key 3 ∷ []))
push-newest_example = push-newest full_queue (key 3) full_queue-IsValid

drain-takes_example :
    IsValid (drain full_queue 1).1
    × ((drain full_queue 1).0 ≡ take 1 (contents full_queue))
    × (contents (drain full_queue 1).1 ≡ drop 1 (contents full_queue))
drain-takes_example = drain-takes 1 full_queue full_queue-IsValid

abbrev messages : List Message
messages =
    (10, 6, codes "net", codes "up")
    ∷ (11, 3, [], codes "lost")
    ∷ (12, 6, codes "net", codes "up")
    ∷ []

log_then_read_example : rad_log_read (log_all empty_log messages) 8 1 ≡ (
  length (drop (passed_over 3 1) (numbered 1 messages)),
  take 8 (drop (passed_over 3 1) (numbered 1 messages)),
)
log_then_read_example = log_then_read messages 8 1 (omega arith)

abbrev table : Irqs
table = record { irqs = zero_irq ∷ zero_irq ∷ []; handled = [] }

registers :
    rad_irq_register table 5 (codes "uart") (some 9) 4
    ≡ (ok, (rad_irq_register table 5 (codes "uart") (some 9) 4).1)
unfolding rad_irq_register find_index
registers = refl

register_then_dispatch_example :
    let s1 = (rad_irq_register table 5 (codes "uart") (some 9) 4).1 in
    let s2 = (rad_irq_switch none true s1 5).1 in
    let call : Handled = record { handler = 9; irq = 5; context = 4 } in
    ((rad_irq_dispatch s2 5).0 ≡ ok)
    × ((rad_irq_dispatch s2 5).1.handled ≡ table.handled ++ (call ∷ []))
    × ((rad_irq_dispatch s1 5).0 ≡ not_supported)
    × ((rad_irq_dispatch s1 5).1.handled ≡ table.handled)
register_then_dispatch_example =
    register_then_dispatch table (rad_irq_register table 5 (codes "uart") (some 9) 4).1 5
      (codes "uart") 9 4 none registers
