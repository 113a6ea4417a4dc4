-- ===== src/ConnectionPool/Runs.antt =====
-- Any operations on the pool, one after the other.
use newosp.Base.{
  ◌↔◌, suc, ◌+◌, ◌-◌, ◌%◌, ◌^◌, ◌<◌, ◌==◌, if◌then◌else◌, true, Option, none, some, List, [], ◌∷◌,
  ◌≡◌, refl, leb, length, arith, ap, sym, ◌∙◌, if_intro, ℕ,
}
use newosp.ConnectionPool.{
  ConnectionPool, Slot, Expected, ConnectionState, invalid_connection_id, find_slot, free_slot,
  modify, new_slot, placed, add, at_slot, deactivate, remove, with_state, set_state, touched, touch,
  is_timed_out, sweep, remove_timed_out, is_full, is_empty, clear,
}
use newosp.ConnectionPool.Counts.{
  active_count, IsCounted, IsFree, IsTaken, free_slot-IsFree, find_slot-IsTaken, length-modify,
  length-map, active_count-modify, active_count-deactivate, active_count-le,
}

-- The operations that change the pool.
pub data Command : Type 0 where
  add_it : (now remote_ip remote_port : ℕ) → Option (List ℕ) → Command
  remove_it : ℕ → Command
  set_state_of : ℕ → ConnectionState → Command
  touch_it : (now id : ℕ) → Command
  remove_old : (now timeout_us : ℕ) → Command
  clear_all : Command

unfoldable pub step : ℕ → Command → ConnectionPool → ConnectionPool
step n (add_it now ip port label) p = (add n now ip port label p).1
step n (remove_it id) p = (remove id p).1
step n (set_state_of id state) p = (set_state id state p).1
step n (touch_it now id) p = (touch now id p).1
step n (remove_old now timeout_us) p = (remove_timed_out now timeout_us p).1
step n clear_all p = clear p

unfoldable pub run : ℕ → List Command → ConnectionPool → ConnectionPool
run n [] p = p
run n (c ∷ cs) p = run n cs (step n c p)

module _ (n : ℕ) (few : n < 2 ^ 32) where
  placed-IsCounted :
      (new : Slot) (p : ConnectionPool) (o : Option ℕ)
      → p.count < n
      → IsCounted n p
      → IsFree new p.slots o
      → IsCounted n (placed new p o).1
  unfolding placed
  placed-IsCounted new p none room c h = c
  placed-IsCounted new p (some i) room c h = record {
    counted = omega (arith, c.counted);
    sized = length-modify p.slots i (λ old. new) ∙ c.sized;
  }

  add-IsCounted :
      (now ip port : ℕ) (label : Option (List ℕ)) (p : ConnectionPool)
      → IsCounted n p
      → IsCounted n (add n now ip port label p).1
  unfolding add
  add-IsCounted now ip port label p c =
      let new = new_slot now p.next_id ip port label in
      if_intro (λ (r : Expected ℕ × ConnectionPool). IsCounted n r.1) (leb n p.count) (λ full. c)
        (λ e.
          placed-IsCounted new p (free_slot p.slots) (ground arith) c
            (free_slot-IsFree new p.slots refl))

  removed-IsCounted :
      (p : ConnectionPool) (o : Option ℕ)
      → IsCounted n p
      → IsTaken p.slots o
      → IsCounted n
          (at_slot
            (λ i. record p {
              slots = modify p.slots i deactivate;
              count = (p.count + 2 ^ 32 - 1) % 2 ^ 32;
            })
            p
            o).1
  removed-IsCounted p none c h = c
  removed-IsCounted p (some i) c h = record {
    counted = omega (arith, c.counted, active_count-le p.slots, c.sized);
    sized = length-modify p.slots i deactivate ∙ c.sized;
  }

  remove-IsCounted : (id : ℕ) (p : ConnectionPool) → IsCounted n p → IsCounted n (remove id p).1
  unfolding remove
  remove-IsCounted id p c =
      if_intro (λ (r : Expected Unit × ConnectionPool). IsCounted n r.1)
        (id == invalid_connection_id) (λ e. c)
        (λ e. removed-IsCounted p (find_slot id p.slots) c (find_slot-IsTaken id p.slots))

  written-IsCounted :
      (f : Slot → Slot) (p : ConnectionPool) (o : Option ℕ)
      → ((slot : Slot) → (f slot).active ≡ slot.active)
      → IsCounted n p
      → IsCounted n (at_slot (λ i. record p { slots = modify p.slots i f }) p o).1
  written-IsCounted f p none same c = c
  written-IsCounted f p (some i) same c = record {
    counted = c.counted ∙ sym (active_count-modify p.slots i f same);
    sized = length-modify p.slots i f ∙ c.sized;
  }

  -- With `a` active slots before these ones.
  sweep-counts :
      (now timeout_us : ℕ) (slots : List Slot) (a count removed : ℕ)
      → count ≡ a + active_count slots
      → a + length slots < 2 ^ 32
      → let (slots', (count', removed')) = sweep now timeout_us slots count removed in
        (count' ≡ a + active_count slots') × (length slots' ≡ length slots)
  unfolding sweep
  sweep-counts now timeout_us [] a count removed c fits = (c, refl)
  sweep-counts now timeout_us (slot ∷ slots) a count removed c fits =
      let out = is_timed_out now timeout_us slot in
      let here = if (if out then deactivate slot else slot).active then 1 else 0 in
      let left = if out then (count + 2 ^ 32 - 1) % 2 ^ 32 else count in
      let gone = if out then (removed + 1) % 2 ^ 32 else removed in
      let before : left ≡ a + here + active_count slots = ground (arith, active_count-le slots) in
      let room : a + here + length slots < 2 ^ 32 = ground arith in
      let (same, len) = sweep-counts now timeout_us slots (a + here) left gone before room in
      (omega (arith, same), ap suc len)

  step-IsCounted : (c : Command) (p : ConnectionPool) → IsCounted n p → IsCounted n (step n c p)
  unfolding step set_state touch remove_timed_out clear
  step-IsCounted (add_it now ip port label) p h = add-IsCounted now ip port label p h
  step-IsCounted (remove_it id) p h = remove-IsCounted id p h
  step-IsCounted (set_state_of id state) p h =
      if_intro (λ (r : Expected Unit × ConnectionPool). IsCounted n r.1)
        (id == invalid_connection_id) (λ e. h)
        (λ e. written-IsCounted (with_state state) p (find_slot id p.slots) (λ slot. refl) h)
  step-IsCounted (touch_it now id) p h =
      if_intro (λ (r : Expected Unit × ConnectionPool). IsCounted n r.1)
        (id == invalid_connection_id) (λ e. h)
        (λ e. written-IsCounted (touched now) p (find_slot id p.slots) (λ slot. refl) h)
  step-IsCounted (remove_old now timeout_us) p h =
      let (same, len) =
        sweep-counts now timeout_us p.slots 0 p.count 0 (omega (arith, h.counted))
          (omega (arith, h.sized)) in
      record { counted = omega (arith, same); sized = len ∙ h.sized }
  step-IsCounted clear_all p h = record {
    counted = sym (active_count-deactivate p.slots);
    sized = length-map deactivate p.slots ∙ h.sized;
  }

  -- Whatever operations are applied to a pool of fewer than 2^32 slots, its count stays the number of
  -- its active slots, and the number of its slots stays the same; so a pool that is full has no free
  -- slot, and one that is not has one.
  pub run-IsCounted :
      (cs : List Command) (p : ConnectionPool)
      → IsCounted n p
      → let q = run n cs p in
        IsCounted n q
        × ((is_full n q ≡ true) ↔ (active_count q.slots ≡ length q.slots))
        × ((is_empty q ≡ true) ↔ (active_count q.slots ≡ 0))
  unfolding run
  run-IsCounted [] p h =
      let few_active = active_count-le p.slots in
      (h, ground (arith, h.counted, h.sized), ground (arith, h.counted))
  run-IsCounted (c ∷ cs) p h = run-IsCounted cs (step n c p) (step-IsCounted c p h)
