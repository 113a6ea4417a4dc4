-- ===== src/Bus/Tests.antt =====
-- The bus on small inputs.
use mathlib.Core.Option.{none}
use newosp.Base.{
  ◌^◌, ◌⊎◌, ◌-◌, false, true, ℕ, ◌≡◌, ◌<◌, ◌≤◌, ◌+◌, refl, arith, some, [], ◌∷◌, ◌≢◌, length,
  get_elem?,
}
use newosp.Bus.{Bus, medium, Payload, slot_of, update, queue_depth, sub_word}
use newosp.Bus.Ring.{Request, envelope_of, new_bus, publish_internal, process_batch}
use newosp.Bus.Table.{
  subscribe, dispatch_message, slot_at, call_loop, placed, fill_first, blank_slot, blank_entry,
}
use newosp.Bus.Entries.{active_callbacks}
use newosp.Bus.Callbacks.{
  IsTidyTable, new_bus-IsTidyTable, subscribe-IsTidyTable, dispatch_message-eq, Undoes,
  subscribe-unsubscribe,
}
use newosp.Bus.SpinLock.{
  View, unheld, nested, lock, unlock, unlock_shared, lock_shared, shared_spin, lock_spin,
  upgrade_hangs,
}
use newosp.Bus.Queue.{Holds, new_bus-Holds}
use newosp.Bus.Publish.{Agrees, publish_internal_refines}
use newosp.Bus.Process.{Batch, process_batch_refines}
use newosp.Bus.Threads.{Kind, aimed, dispatching, mismatched}
use newosp.Bus.Threads.Moves.{
  call, measure, admit, load_prod, matches, differs, claim, fetch_id, write_header, write_payload,
  write_priority, publish,
}
use newosp.Bus.Threads.Steps.{
  System, Step, produce, consume, begin, take, dispatch, break_off, advance, Reach, started, later,
}
use newosp.Bus.Threads.Owners.{owned, node_at}
use newosp.Bus.Threads.Safety.{slots_exclusive, delivered_in_order, claimed-free}
use newosp.Bus.Threads.Depth.{loaded_depth, Steps, at_once, and_then, loaded_depth_bounded}
use mathlib.Core.Option

abbrev text : ℕ → Payload ℕ
text n = record { index = 0; value = n }

abbrev request : ℕ → Request ℕ
request n = record {
  payload = text n;
  sender_id = n;
  timestamp_us = 5;
  priority = medium;
  topic_hash = 0;
}

-- Thread 0 has found the slot of the next position free.
abbrev found : (s : System ℕ) × Reach 2 (text 0) s
found = (
  _,
  later
      (later
        (later
          (later (later started (produce 0 (call (request 7) (omega arith)))) (produce 0 measure))
          (produce 0 (admit (omega arith))))
        (produce 0 load_prod))
      (produce 0 (matches {p = 0} (omega arith))),
)

-- It has published its message.
abbrev one_published : (s : System ℕ) × Reach 2 (text 0) s
one_published = (
  _,
  later
      (later
        (later
          (later
            (later (later found.1 (produce 0 (claim {p = 0} (omega arith)))) (produce 0 fetch_id))
            (produce 0 write_header))
          (produce 0 write_payload))
        (produce 0 write_priority))
      (produce 0 publish),
)

-- Thread 1 has claimed the next slot, and the consumer has taken the message.
abbrev one_taken : (s : System ℕ) × Reach 2 (text 0) s
one_taken = (
  _,
  later
      (later
        (later
          (later
            (later
              (later
                (later (later one_published.1 (produce 1 (call (request 8) (omega arith))))
                  (produce 1 measure))
                (produce 1 (admit (omega arith))))
              (produce 1 load_prod))
            (produce 1 (matches {p = 1} (omega arith))))
          (produce 1 (claim {p = 1} (omega arith))))
        (consume begin))
      (consume (take {cons = 0} (omega arith) (omega arith))),
)

abbrev one_dispatched : (s : System ℕ) × Reach 2 (text 0) s
one_dispatched = (_, later one_taken.1 (consume dispatch))

claimed-free_example : (node_at 2 found.0.shared 0).sequence ≡ 0
claimed-free_example = claimed-free (omega arith) found.1 (omega arith) 0 0 (request 7) refl refl

slots_exclusive_example :
    ((i j p q : ℕ) (k l : Kind)
      → owned (one_taken.0.pcs i) ≡ some (k, p)
      → owned (one_taken.0.pcs j) ≡ some (l, q)
      → slot_of 2 p ≡ slot_of 2 q
      → (i ≡ j) × (p ≡ q))
    × ((cons n i p : ℕ) (k : Kind)
        → one_taken.0.consumer ≡ dispatching cons n
        → owned (one_taken.0.pcs i) ≡ some (k, p)
        → slot_of 2 p ≢ slot_of 2 cons)
slots_exclusive_example = slots_exclusive (omega arith) one_taken.1 (omega arith)

delivered_in_order_example :
    (length one_dispatched.0.shared.delivered ≡ 1)
    × ((p : ℕ)
        → p < 1
        → get_elem? one_dispatched.0.shared.delivered p ≡ one_dispatched.0.shared.stored p)
delivered_in_order_example = delivered_in_order (omega arith) one_dispatched.1 (omega arith)

-- Between the loads the consumer ends its batch: the next message is not published yet.
abbrev batch_ends : (t : System ℕ) × Steps 2 one_taken.0 t
batch_ends = (
  _,
  and_then
      (and_then (and_then at_once (consume dispatch))
        (consume (break_off (λ e. absurd (omega (arith, e))))))
      (consume (advance (omega arith))),
)

loaded_depth_bounded_example :
    ((1 ≤ 2) × (loaded_depth one_taken.0.shared batch_ends.0.shared ≤ 4 + 256))
    ⊎ ((2 < 1) × (loaded_depth one_taken.0.shared batch_ends.0.shared + (1 - 2) ≡ 2 ^ 32))
loaded_depth_bounded_example =
    loaded_depth_bounded (omega arith) one_taken.1 batch_ends.1 (omega arith)

one_dispatched_out : one_dispatched.0.shared.delivered ≡ envelope_of (request 7) 1 ∷ []
one_dispatched_out = refl

-- Thread 1 has loaded position 0; thread 0 publishes there and the consumer empties the bus.
abbrev emptied : (s : System ℕ) × Reach 2 (text 0) s
emptied = (
  _,
  later
      (later
        (later
          (later
            (later
              (later
                (later
                  (later
                    (later
                      (later
                        (later
                          (later
                            (later
                              (later (later found.1 (produce 1 (call (request 8) (omega arith))))
                                (produce 1 measure))
                              (produce 1 (admit (omega arith))))
                            (produce 1 load_prod))
                          (produce 0 (claim {p = 0} (omega arith))))
                        (produce 0 fetch_id))
                      (produce 0 write_header))
                    (produce 0 write_payload))
                  (produce 0 write_priority))
                (produce 0 publish))
              (consume begin))
            (consume (take {cons = 0} (omega arith) (omega arith))))
          (consume dispatch))
        (consume (break_off {cons = 1} (omega arith))))
      (consume (advance (omega arith))),
)

-- The bus is empty, and thread 1 drops its message as if it were full: `prod_pos - cons` wraps.
emptied_drops :
    (emptied.0.shared.producer_pos ≡ emptied.0.shared.consumer_pos)
    × (emptied.0.pcs 1 ≡ aimed (request 8) 0)
    × (Step 2 emptied.0
        (record emptied.0 { pcs = update emptied.0.pcs 1 (mismatched (request 8) 0) }))
    × (queue_depth 2 ≤ sub_word 0 emptied.0.shared.consumer_pos)
emptied_drops = (refl, refl, produce 1 (differs (omega arith)), omega arith)

-- A bus of depth 4 with one callable, 9, for the messages of type 0.
abbrev new : Bus ℕ ℕ
new = new_bus (text 0)

abbrev with_callback : Bus ℕ ℕ
with_callback = (subscribe 0 9 new).1

with_callback-IsTidyTable : IsTidyTable with_callback
unfolding new_bus
with_callback-IsTidyTable =
    subscribe-IsTidyTable 0 9 new (omega arith) (omega arith) (new_bus-IsTidyTable (text 0))

dispatch_message-eq_example :
    dispatch_message with_callback (envelope_of (request 7) 1)
    ≡ active_callbacks (slot_at with_callback.callback_table 0).entries
dispatch_message-eq_example =
    dispatch_message-eq with_callback (envelope_of (request 7) 1) with_callback-IsTidyTable

dispatches_once : dispatch_message with_callback (envelope_of (request 7) 1) ≡ some 9 ∷ []
unfolding dispatch_message slot_at call_loop subscribe placed fill_first new_bus blank_slot
    blank_entry
dispatches_once = refl

subscribe-unsubscribe_example : Undoes 0 9 new (subscribe 0 9 new)
unfolding new_bus
subscribe-unsubscribe_example =
    subscribe-unsubscribe 0 9 new (omega arith) (omega arith) (new_bus-IsTidyTable (text 0))

publish_internal_refines_example :
    Agrees 2 0 (publish_internal 2 (request 7) new) (true, envelope_of (request 7) 1 ∷ [])
unfolding new_bus
publish_internal_refines_example =
    publish_internal_refines 2 0 new [] (request 7) (omega arith) (omega arith)
      (new_bus-Holds 2 (text 0))

one_pending : Holds 2 0 (publish_internal 2 (request 7) new).1 (envelope_of (request 7) 1 ∷ [])
one_pending = publish_internal_refines_example.1

process_batch_refines_example :
    Batch 2 0
      (publish_internal 2 (request 7) new).1
      (envelope_of (request 7) 1 ∷ [])
      (process_batch 2 (publish_internal 2 (request 7) new).1)
unfolding new_bus
process_batch_refines_example =
    process_batch_refines 2 0 (publish_internal 2 (request 7) new).1
      (envelope_of (request 7) 1 ∷ []) (omega arith)
      (publish_internal_refines 2 0 new [] (request 7) (omega arith) (omega arith)
        (new_bus-Holds 2 (text 0))).1

-- From within one call of `lock_shared`, the upgrade works and `unlock` restores the read.
upgrade_once :
    (v : View) × (nested 1 1 unheld ≡ some v)
    × (Option.map (λ w. unlock_shared (unlock w)) (lock 1 v)
        ≡ some (record unheld { locals = record unheld.locals { upgrade_depth = 1 } }))
unfolding nested lock_shared shared_spin lock lock_spin unlock unlock_shared
upgrade_once = (
  record {
    state = 1;
    locals = record { reader_depth = 1; upgrade_writer = false; upgrade_depth = 0 };
  },
  refl,
  refl,
)

upgrade_hangs_example :
    (v : View) × (nested 1 2 unheld ≡ some v)
    × (2 ≤ 2 → lock 1000 v ≡ none)
    × (lock 1000 (record v { state = 0 }) ≡ none)
upgrade_hangs_example = upgrade_hangs 1000 0 1 (omega arith)

-- A call of Depth that loads its first position before that message and the second now: the bus is empty.
emptied_depth : loaded_depth found.0.shared emptied.0.shared ≡ 4294967295
unfolding loaded_depth
emptied_depth = refl
