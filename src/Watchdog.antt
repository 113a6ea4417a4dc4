-- ===== src/Watchdog.antt =====
-- The thread watchdog, include/osp/watchdog.hpp, with ThreadHeartbeat of include/osp/platform.hpp.
-- A method that takes the mutex is one step. SteadyNowUs() is the argument `now`, read where the
-- method reads the clock; the array of slots is a list of `max_threads` of them.
use newosp.Base.{
  ◌%◌, ◌-◌, set, get_elem?, ◌&&◌, none, ltb, ◌*◌, ◌+◌, ◌^◌, ◌==◌, leb, take, some, bit_or, [], ◌++◌,
  false, shr, Bool, if◌then◌else◌, true, bit_and, ◌∷◌, ℕ, List, Option,
}
mod Edges
mod Ids
mod Stale
mod Tests

-- WatchdogError.
pub data WatchdogError : Type 0 where
  slots_full : WatchdogError
  invalid_timeout : WatchdogError
  not_registered : WatchdogError

-- expected<A, WatchdogError>.
pub data Expected (A : Type 0) : Type 0 where
  success : A → Expected A
  error : WatchdogError → Expected A

-- ThreadWatchdog::Slot; the heartbeat is its time stamp.
pub record Slot : Type 0 where
  pub active : Bool
  pub generation : ℕ
  pub last_beat_us : ℕ
  pub timeout_us : ℕ
  pub timed_out : Bool
  pub name : List ℕ

-- WatchdogSlotInfo.
pub record WatchdogSlotInfo : Type 0 where
  pub slot_id : ℕ
  pub info_name : List ℕ
  pub info_timeout_us : ℕ
  pub info_last_beat_us : ℕ
  pub info_timed_out : Bool

-- The constant kSlotBits.
abbrev pub slot_bits : ℕ → ℕ
slot_bits n =
    if leb n 2
    then 1
    else if leb n 4
    then 2
    else if leb n 8
    then 3
    else if leb n 16
    then 4
    else if leb n 32
    then 5
    else if leb n 64
    then 6
    else if leb n 128
    then 7
    else 8

-- `(generation << kSlotBits) | i` on 32 bits.
abbrev pub encoded_id : ℕ → ℕ → ℕ → ℕ
encoded_id bits generation i = bit_or i (generation * 2 ^ bits % 2 ^ 32)

-- `raw & kSlotMask` and `raw >> kSlotBits`.
abbrev pub index_of : ℕ → ℕ → ℕ
index_of bits raw = bit_and raw (2 ^ bits - 1)

abbrev pub generation_of : ℕ → ℕ → ℕ
generation_of bits raw = shr raw bits

-- FixedString<32>::assign with TruncateToCapacity, on the characters before the terminator.
abbrev pub assign : Option (List ℕ) → List ℕ
assign none = []
assign (some str) = take 32 str

-- ThreadHeartbeat::Beat.
abbrev pub beat : ℕ → Slot → Slot
beat now s = record s { last_beat_us = now }

abbrev pub empty_slot : Slot
empty_slot = record {
  active = false;
  generation = 0;
  last_beat_us = 0;
  timeout_us = 0;
  timed_out = false;
  name = [];
}

-- The body of the loop of Register, on a free slot.
abbrev pub occupy : ℕ → Option (List ℕ) → ℕ → Slot → Slot
occupy now name timeout_ms s = record {
  active = true;
  generation = (s.generation + 1) % 2 ^ 32;
  last_beat_us = now;
  timeout_us = timeout_ms * 1000;
  timed_out = false;
  name = assign name;
}

module _ (max_threads : ℕ) where
  -- The loop of Register from slot `i` on.
  unfoldable pub register_from : ℕ → Option (List ℕ) → ℕ → ℕ → List Slot → Expected ℕ × List Slot
  register_from now name timeout_ms i [] = (error slots_full, [])
  register_from now name timeout_ms i (s ∷ rest) = elim s.active [
    | false ↦
        let t = occupy now name timeout_ms s in
        (success (encoded_id (slot_bits max_threads) t.generation i), t ∷ rest)
    | true ↦
        let (result, rest') = register_from now name timeout_ms (i + 1) rest in (result, s ∷ rest')
  ]

  unfoldable pub register : ℕ → Option (List ℕ) → ℕ → List Slot → Expected ℕ × List Slot
  register now name timeout_ms slots =
      if timeout_ms == 0
      then (error invalid_timeout, slots)
      else register_from now name timeout_ms 0 slots

  -- The test that Unregister, Feed and IsTimedOut make: the slot that an id owns, if it does.
  unfoldable pub owned : List Slot → ℕ → Option Slot
  owned slots raw =
      let i = index_of (slot_bits max_threads) raw in
      if leb max_threads i then none else elim (get_elem? slots i) [
        | none ↦ none
        | some s ↦
            if s.active && s.generation == generation_of (slot_bits max_threads) raw
            then some s
            else none
      ]

  unfoldable pub unregister : ℕ → List Slot → Expected Unit × List Slot
  unregister raw slots = elim (owned slots raw) [
    | none ↦ (error not_registered, slots)
    | some s ↦
        (success tt, set slots (index_of (slot_bits max_threads) raw) (record s { active = false }))
  ]

  unfoldable pub feed : ℕ → ℕ → List Slot → List Slot
  feed now raw slots = elim (owned slots raw) [
    | none ↦ slots
    | some s ↦ set slots (index_of (slot_bits max_threads) raw) (beat now s)
  ]

  unfoldable pub is_timed_out : List Slot → ℕ → Bool
  is_timed_out slots raw = elim (owned slots raw) [ none ↦ false | some s ↦ s.timed_out ]

unfoldable pub active_count : List Slot → ℕ
active_count [] = 0
active_count (s ∷ rest) = (if s.active then 1 else 0) + active_count rest

unfoldable pub timed_out_count : List Slot → ℕ
timed_out_count [] = 0
timed_out_count (s ∷ rest) = (if s.active && s.timed_out then 1 else 0) + timed_out_count rest

-- What ForEachSlot shows of the slots from `i` on, in order.
unfoldable pub for_each_slot : ℕ → List Slot → List WatchdogSlotInfo
for_each_slot i [] = []
for_each_slot i (s ∷ rest) =
    let infos = for_each_slot (i + 1) rest in
    if s.active
    then record {
      slot_id = i;
      info_name = s.name;
      info_timeout_us = s.timeout_us;
      info_last_beat_us = s.last_beat_us;
      info_timed_out = s.timed_out;
    }
      ∷ infos
    else infos

-- `is_timed_out` in the loop of Check.
abbrev pub is_late : ℕ → Slot → Bool
is_late now s = ltb s.last_beat_us now && ltb s.timeout_us (now - s.last_beat_us)

-- A callback that Check defers: the slot's id and name.
pub record Notice : Type 0 where
  pub notice_id : ℕ
  pub notice_name : List ℕ

-- What the loop of Check collects.
pub record Collected : Type 0 where
  pub slots_after : List Slot
  pub timeout_pending : List Notice
  pub recover_pending : List Notice
  pub total_timed_out : ℕ

abbrev pub notice : ℕ → ℕ → Slot → Notice
notice bits i s = record { notice_id = encoded_id bits s.generation i; notice_name = s.name }

-- One turn of the loop of Check on an active slot, before what the other turns collect.
abbrev pub check_slot : ℕ → ℕ → ℕ → Slot → Collected → Collected
check_slot bits now i s rest =
    if is_late now s
    then (if s.timed_out
        then record {
          slots_after = s ∷ rest.slots_after;
          timeout_pending = rest.timeout_pending;
          recover_pending = rest.recover_pending;
          total_timed_out = 1 + rest.total_timed_out;
        }
        else record {
          slots_after = record s { timed_out = true } ∷ rest.slots_after;
          timeout_pending = notice bits i s ∷ rest.timeout_pending;
          recover_pending = rest.recover_pending;
          total_timed_out = 1 + rest.total_timed_out;
        })
    else (if s.timed_out
        then record {
          slots_after = record s { timed_out = false } ∷ rest.slots_after;
          timeout_pending = rest.timeout_pending;
          recover_pending = notice bits i s ∷ rest.recover_pending;
          total_timed_out = rest.total_timed_out;
        }
        else record {
          slots_after = s ∷ rest.slots_after;
          timeout_pending = rest.timeout_pending;
          recover_pending = rest.recover_pending;
          total_timed_out = rest.total_timed_out;
        })

-- The loop of Check from slot `i` on.
unfoldable pub check_from : ℕ → ℕ → ℕ → List Slot → Collected
check_from bits now i [] = record {
  slots_after = [];
  timeout_pending = [];
  recover_pending = [];
  total_timed_out = 0;
}
check_from bits now i (s ∷ rest) =
    let collected = check_from bits now (i + 1) rest in
    if s.active
    then check_slot bits now i s collected
    else record collected { slots_after = s ∷ collected.slots_after }

-- ThreadWatchdog: its slots, and the callbacks, each with its context.
pub record ThreadWatchdog {ℓ} (F : Type ℓ) : Type ℓ where
  pub slots : List Slot
  pub on_timeout : Option F
  pub on_recovered : Option F

module _ {ℓ} {F : Type ℓ} (max_threads : ℕ) where
  -- The calls of one callback, in order; none if it is not set.
  unfoldable pub calls_of : Option F → List Notice → List (F × Notice)
  calls_of none pending = []
  calls_of (some fn) [] = []
  calls_of (some fn) (n ∷ pending) = (fn, n) ∷ calls_of (some fn) pending

  -- Check: its result, the callbacks that it calls, in order, and the watchdog after.
  unfoldable pub check : ℕ → ThreadWatchdog F → ℕ × List (F × Notice) × ThreadWatchdog F
  check now w =
      let c = check_from (slot_bits max_threads) now 0 w.slots in
      (
        c.total_timed_out,
        calls_of w.on_timeout c.timeout_pending ++ calls_of w.on_recovered c.recover_pending,
        record w { slots = c.slots_after },
      )

  unfoldable pub set_on_timeout : Option F → ThreadWatchdog F → ThreadWatchdog F
  set_on_timeout fn w = record w { on_timeout = fn }

  unfoldable pub set_on_recovered : Option F → ThreadWatchdog F → ThreadWatchdog F
  set_on_recovered fn w = record w { on_recovered = fn }

-- WatchdogGuard: its constructor, on a watchdog that is there, and its destructor. The id is kept if
-- the registration succeeded.
module _ (max_threads : ℕ) where
  unfoldable pub guard_enter : ℕ → Option (List ℕ) → ℕ → List Slot → Option ℕ × List Slot
  guard_enter now name timeout_ms slots =
      let (result, slots') = register max_threads now name timeout_ms slots in
      (elim result [ success id ↦ some id | error e ↦ none ], slots')

  unfoldable pub guard_exit : Option ℕ → List Slot → List Slot
  guard_exit none slots = slots
  guard_exit (some id) slots = let (result, slots') = unregister max_threads id slots in slots'
