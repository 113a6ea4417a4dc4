-- ===== src/ConnectionPool/Tests.antt =====
-- The pool at concrete inputs.
use newosp.Base.{Bool, true, false, none, some, List, [], ◌∷◌, ◌≡◌, refl, length, arith, ℕ, ◌↔◌}
use newosp.ConnectionPool.{ConnectionPool, Slot, connected, new_slot, add, is_full, is_empty}
use newosp.ConnectionPool.Counts.{active_count, IsCounted}
use newosp.ConnectionPool.Runs.{Command, add_it, touch_it, remove_old, run, run-IsCounted}
use newosp.ConnectionPool.Lookup.{Found, find-add}

abbrev connection : ℕ → Bool → Slot
connection id active = record {
  info = record {
    id = id;
    state = connected;
    created_time_us = 10;
    last_active_us = 20;
    remote_ip = 2130706433;
    remote_port = 80;
    label = [];
  };
  active = active;
}

abbrev half_full : ConnectionPool
half_full = record { slots = connection 0 true ∷ connection 1 false ∷ []; count = 1; next_id = 2 }

half_full-IsCounted : IsCounted 2 half_full
half_full-IsCounted = record { counted = refl; sized = refl }

abbrev commands : List Command
commands =
    add_it 30 2130706433 81 (some (104 ∷ 105 ∷ [])) ∷ touch_it 900 2 ∷ remove_old 1000 500 ∷ []

run-IsCounted_example :
    let q = run 2 commands half_full in
    IsCounted 2 q
    × ((is_full 2 q ≡ true) ↔ (active_count q.slots ≡ length q.slots))
    × ((is_empty q ≡ true) ↔ (active_count q.slots ≡ 0))
run-IsCounted_example = run-IsCounted 2 (omega arith) commands half_full half_full-IsCounted

find-add_example :
    Found half_full (new_slot 30 2 2130706433 81 none).info (add 2 30 2130706433 81 none half_full)
find-add_example =
    find-add 2 30 2130706433 81 none half_full (λ e. omega arith)
      ((λ on e. omega arith), ((λ on e. omega arith), tt))
