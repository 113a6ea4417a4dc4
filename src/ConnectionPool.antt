-- ===== src/ConnectionPool.antt =====
-- The connection pool, include/osp/connection.hpp. The array of slots is a list of `max_connections` of
-- them, a label is its characters before the terminator, and `now` is what SteadyNowUs() gives.
use newosp.Base.{
  zero, suc, ◌+◌, ◌-◌, ◌%◌, ◌^◌, ◌==◌, if◌then◌else◌, Bool, true, false, ◌&&◌, ◌||◌, Option, none,
  some, List, [], ◌∷◌, ltb, leb, take, map, ℕ,
}
use mathlib.Core.Option
pub mod Counts
pub mod Runs
pub mod Lookup
mod Tests

-- The members of ConnectionError that the pool returns.
pub data ConnectionError : Type 0 where
  pool_full not_found invalid_id : ConnectionError

pub data Expected (A : Type 0) : Type 0 where
  success : A → Expected A
  error : ConnectionError → Expected A

pub data ConnectionState : Type 0 where
  idle connecting connected disconnecting closed : ConnectionState

-- ConnectionId::Invalid().
abbrev pub invalid_connection_id : ℕ
invalid_connection_id = 4294967295

pub record ConnectionInfo : Type 0 where
  pub id : ℕ
  pub state : ConnectionState
  pub created_time_us : ℕ
  pub last_active_us : ℕ
  pub remote_ip : ℕ
  pub remote_port : ℕ
  pub label : List ℕ

pub record Slot : Type 0 where
  pub info : ConnectionInfo
  pub active : Bool

pub record ConnectionPool : Type 0 where
  pub slots : List Slot
  pub count : ℕ
  pub next_id : ℕ

-- FindSlot.
unfoldable pub find_slot : ℕ → List Slot → Option ℕ
find_slot id [] = none
find_slot id (slot ∷ slots) =
    let rest = find_slot id slots in
    if slot.active && (slot.info.id == id) then some 0 else Option.map suc rest

-- The loop of Add: the first inactive slot.
unfoldable pub free_slot : List Slot → Option ℕ
free_slot [] = none
free_slot (slot ∷ slots) =
    let rest = free_slot slots in if slot.active then Option.map suc rest else some 0

-- A write to a slot.
unfoldable pub modify : List Slot → ℕ → (Slot → Slot) → List Slot
modify [] i f = []
modify (slot ∷ slots) zero f = f slot ∷ slots
modify (slot ∷ slots) (suc i) f = slot ∷ modify slots i f

-- The id after `id`.
unfoldable pub id_after : ℕ → ℕ
id_after id =
    let next = (id + 1) % 2 ^ 32 in
    if (next == 0) || (next == invalid_connection_id) then 1 else next

-- At most 31 characters of a label.
abbrev pub cut_label : Option (List ℕ) → List ℕ
cut_label none = []
cut_label (some label) = take 31 label

abbrev pub new_slot : ℕ → ℕ → ℕ → ℕ → Option (List ℕ) → Slot
new_slot now id remote_ip remote_port label = record {
  info = record {
    id = id;
    state = idle;
    created_time_us = now;
    last_active_us = now;
    remote_ip = remote_ip;
    remote_port = remote_port;
    label = cut_label label;
  };
  active = true;
}

-- Add after its loop.
unfoldable pub placed : Slot → ConnectionPool → Option ℕ → Expected ℕ × ConnectionPool
placed slot p none = (error pool_full, p)
placed slot p (some i) = (
  success p.next_id,
  record {
    slots = modify p.slots i (λ old. slot);
    count = (p.count + 1) % 2 ^ 32;
    next_id = id_after p.next_id;
  },
)

unfoldable pub add : ℕ → ℕ → ℕ → ℕ → Option (List ℕ) → ConnectionPool → Expected ℕ × ConnectionPool
add max_connections now remote_ip remote_port label p =
    if leb max_connections p.count
    then (error pool_full, p)
    else placed (new_slot now p.next_id remote_ip remote_port label) p (free_slot p.slots)

-- Remove, SetState and Touch after FindSlot.
abbrev pub at_slot :
    (ℕ → ConnectionPool) → ConnectionPool → Option ℕ → Expected Unit × ConnectionPool
at_slot write p none = (error not_found, p)
at_slot write p (some i) = (success tt, write i)

abbrev pub deactivate : Slot → Slot
deactivate slot = record slot { active = false }

unfoldable pub remove : ℕ → ConnectionPool → Expected Unit × ConnectionPool
remove id p =
    if id == invalid_connection_id
    then (error invalid_id, p)
    else at_slot
        (λ i. record p {
          slots = modify p.slots i deactivate;
          count = (p.count + 2 ^ 32 - 1) % 2 ^ 32;
        })
        p (find_slot id p.slots)

abbrev pub with_state : ConnectionState → Slot → Slot
with_state state slot = record slot { info = record slot.info { state = state } }

unfoldable pub set_state : ℕ → ConnectionState → ConnectionPool → Expected Unit × ConnectionPool
set_state id state p =
    if id == invalid_connection_id
    then (error invalid_id, p)
    else at_slot (λ i. record p { slots = modify p.slots i (with_state state) }) p
        (find_slot id p.slots)

abbrev pub touched : ℕ → Slot → Slot
touched now slot = record slot { info = record slot.info { last_active_us = now } }

unfoldable pub touch : ℕ → ℕ → ConnectionPool → Expected Unit × ConnectionPool
touch now id p =
    if id == invalid_connection_id
    then (error invalid_id, p)
    else at_slot (λ i. record p { slots = modify p.slots i (touched now) }) p (find_slot id p.slots)

-- The slot at the index that FindSlot gave.
unfoldable pub info_at : List Slot → Option ℕ → Option ConnectionInfo
info_at slots none = none
info_at [] (some i) = none
info_at (slot ∷ slots) (some zero) = some slot.info
info_at (slot ∷ slots) (some (suc i)) = info_at slots (some i)

-- Find.
abbrev pub find : ℕ → ConnectionPool → Option ConnectionInfo
find id p = info_at p.slots (find_slot id p.slots)

-- What ForEach calls its function with, in order.
unfoldable pub for_each : List Slot → List ConnectionInfo
for_each [] = []
for_each (slot ∷ slots) =
    let rest = for_each slots in if slot.active then slot.info ∷ rest else rest

-- The test of RemoveTimedOut, of 64 bits.
abbrev pub is_timed_out : ℕ → ℕ → Slot → Bool
is_timed_out now timeout_us slot =
    slot.active && ltb timeout_us ((now + 2 ^ 64 - slot.info.last_active_us) % 2 ^ 64)

-- The loop of RemoveTimedOut, with the pool's count and the number removed so far.
unfoldable pub sweep : ℕ → ℕ → List Slot → ℕ → ℕ → List Slot × (ℕ × ℕ)
sweep now timeout_us [] count removed = ([], (count, removed))
sweep now timeout_us (slot ∷ slots) count removed =
    let out = is_timed_out now timeout_us slot in
    let (slots', counts) =
      sweep now timeout_us slots (if out then (count + 2 ^ 32 - 1) % 2 ^ 32 else count)
        (if out then (removed + 1) % 2 ^ 32 else removed) in
    ((if out then deactivate slot else slot) ∷ slots', counts)

unfoldable pub remove_timed_out : ℕ → ℕ → ConnectionPool → ℕ × ConnectionPool
remove_timed_out now timeout_us p =
    let (slots, (count, removed)) = sweep now timeout_us p.slots p.count 0 in
    (removed, record p { slots = slots; count = count })

abbrev pub is_full : ℕ → ConnectionPool → Bool
is_full max_connections p = leb max_connections p.count

abbrev pub is_empty : ConnectionPool → Bool
is_empty p = p.count == 0

unfoldable pub clear : ConnectionPool → ConnectionPool
clear p = record p { slots = map deactivate p.slots; count = 0 }
