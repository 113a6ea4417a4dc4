-- ===== src/Bus/Table.antt =====
-- Subscribe, Unsubscribe and DispatchMessage of AsyncBus, and its callback table.
use newosp.Base.{
  ℕ, ◌+◌, Bool, true, false, List, [], ◌∷◌, Option, none, some, ltb, leb, ◌==◌, ◌&&◌, not,
  if◌then◌else◌, get_or, set, replicate,
}
use newosp.Bus.{
  Bus, CallbackEntry, CallbackSlot, SubscriptionHandle, MessageEnvelope, handle_invalid,
  handle_is_valid, max_message_types, max_callbacks_per_type, word, sub_word,
}
use mathlib.Core.Option

module _ {ℓ} {F : Type ℓ} where
  unfoldable pub blank_entry : CallbackEntry F
  blank_entry = record { id = 0; callback = none; active = false }

  unfoldable pub blank_slot : CallbackSlot F
  unfolding blank_entry
  blank_slot = record { entries = replicate max_callbacks_per_type blank_entry; count = 0 }

  -- The loop of Subscribe: the entries with the first inactive one filled.
  unfoldable pub fill_first : ℕ → F → List (CallbackEntry F) → Option (List (CallbackEntry F))
  fill_first id f [] = none
  fill_first id f (e ∷ es) =
      let rest = fill_first id f es in
      if e.active
      then Option.map (λ es'. e ∷ es') rest
      else some (record { id = id; callback = some f; active = true } ∷ es)

  -- The loop of Unsubscribe: the callback moved out of the entry, and the entries without it.
  unfoldable pub take_out : ℕ → List (CallbackEntry F) → Option (Option F × List (CallbackEntry F))
  take_out id [] = none
  take_out id (e ∷ es) =
      let rest = take_out id es in
      if e.active && (e.id == id)
      then some (e.callback, record e { active = false; callback = none } ∷ es)
      else Option.map (λ r. (r.0, e ∷ r.1)) rest

  -- The loop of DispatchMessage, from `found` on: the callables called, in order. `none` is a call of an
  -- empty FixedFunction.
  unfoldable pub call_loop : ℕ → ℕ → List (CallbackEntry F) → List (Option F)
  call_loop count found [] = []
  call_loop count found (e ∷ es) =
      let after = call_loop count (found + 1) es in
      let rest = call_loop count found es in
      if ltb found count then (if e.active then e.callback ∷ after else rest) else []

  -- `static_cast<bool>` of a FixedFunction.
  abbrev pub is_set : Option F → Bool
  is_set none = false
  is_set (some f) = true

  -- The callback slot of a type.
  unfoldable pub slot_at : List (CallbackSlot F) → ℕ → CallbackSlot F
  unfolding blank_slot
  slot_at table type_idx = get_or table type_idx blank_slot

module _ {ℓ κ} {A : Type ℓ} {F : Type κ} where
  -- What Subscribe returns and leaves, after its loop.
  unfoldable pub placed :
      ℕ → Bus A F → Option (List (CallbackEntry F)) → SubscriptionHandle × Bus A F
  unfolding slot_at
  placed type_idx b none =
      (handle_invalid, record b { next_callback_id = word (b.next_callback_id + 1) })
  placed type_idx b (some es) = (
    record { type_index = type_idx; callback_id = b.next_callback_id },
    record b {
      next_callback_id = word (b.next_callback_id + 1);
      callback_table =
          set b.callback_table type_idx
            (record { entries = es; count = word ((slot_at b.callback_table type_idx).count + 1) });
    },
  )

  unfoldable pub subscribe : ℕ → F → Bus A F → SubscriptionHandle × Bus A F
  unfolding fill_first slot_at placed
  subscribe type_idx f b =
      placed type_idx b
        (fill_first b.next_callback_id f (slot_at b.callback_table type_idx).entries)

  -- What Unsubscribe returns and leaves, after its loop.
  unfoldable pub removed : ℕ → Bus A F → Option (Option F × List (CallbackEntry F)) → Bool × Bus A F
  unfolding slot_at
  removed type_idx b none = (false, b)
  removed type_idx b (some (f, es)) = (
    is_set f,
    record b {
      callback_table =
          set b.callback_table type_idx
            (record { entries = es; count = sub_word (slot_at b.callback_table type_idx).count 1 });
    },
  )

  unfoldable pub unsubscribe : SubscriptionHandle → Bus A F → Bool × Bus A F
  unfolding take_out slot_at removed
  unsubscribe h b =
      if not (handle_is_valid h)
      then (false, b)
      else if leb max_message_types h.type_index
      then (false, b)
      else removed h.type_index b
          (take_out h.callback_id (slot_at b.callback_table h.type_index).entries)

  -- The callables that a message is passed to.
  unfoldable pub dispatch_message : Bus A F → MessageEnvelope A → List (Option F)
  unfolding call_loop slot_at
  dispatch_message b e =
      let slot = slot_at b.callback_table e.payload.index in
      if leb max_message_types e.payload.index
      then []
      else if slot.count == 0
      then []
      else call_loop slot.count 0 slot.entries
