-- ===== src/Bus/Callbacks.antt =====
-- Subscribe, Unsubscribe and DispatchMessage keep the callback table tidy, and a message reaches the
-- callables subscribed to its type.
use newosp.Base.{
  ℕ, suc, ◌+◌, ◌^◌, ◌<◌, ◌≡◌, ◌⊎◌, inl, inr, not, Bool, true, List, [], Option, none, some, arith,
  refl, length, dec_lt, ltb, leb, if◌then◌else◌, ap, sym, ◌∙◌, set, if_intro, subst,
  get_or-set_self, length-set,
}
use newosp.Bus.{
  Bus, CallbackEntry, CallbackSlot, SubscriptionHandle, MessageEnvelope, Payload, handle_is_valid,
  handle_invalid, max_message_types, max_callbacks_per_type, word, sub_word,
}
use newosp.Bus.Ring.{new_bus}
use newosp.Bus.Table.{
  blank_slot, fill_first, take_out, slot_at, placed, subscribe, removed, unsubscribe,
  dispatch_message,
}
use newosp.Bus.Entries.{
  active_callbacks, IsTidy, none_active, call_loop-eq, active_callbacks-le, Filled,
  fill_first-Filled, Taken, take_out-Taken, IsTidy-later, set-IsTidy, same_callbacks, blank-IsTidy,
  get_or-replicate,
}

module _ {A F : Type 0} where
  -- Every type's slot is tidy.
  pub record IsTidyTable (b : Bus A F) : Type 0 where
    pub types : length b.callback_table ≡ max_message_types
    pub tidy :
        (t : ℕ) → t < max_message_types → IsTidy b.next_callback_id (slot_at b.callback_table t)

  pub new_bus-IsTidyTable : (payload : Payload A) → IsTidyTable (new_bus payload)
  unfolding new_bus slot_at
  new_bus-IsTidyTable payload = record {
    types = refl;
    tidy = λ t lt.
        subst (λ s. IsTidy 1 s) (sym (get_or-replicate max_message_types t blank_slot))
          (blank-IsTidy 1);
  }

  -- With a tidy callback table, a message is passed to every active callable of its type, once each, in the
  -- table's order, and to no other; a type out of range reaches none. The count at which the loop stops cuts
  -- nothing off.
  pub dispatch_message-eq :
      (b : Bus A F) (e : MessageEnvelope A)
      → IsTidyTable b
      → dispatch_message b e ≡ (
          if ltb e.payload.index max_message_types
          then active_callbacks (slot_at b.callback_table e.payload.index).entries
          else [])
  unfolding dispatch_message
  dispatch_message-eq b e h = elim (dec_lt e.payload.index max_message_types) [
    | yes lt ↦
        let s = slot_at b.callback_table e.payload.index in
        let t = h.tidy e.payload.index lt in
        ground (arith, t.counted, call_loop-eq s.count 0 s.entries, none_active s.entries)
    | no ge ↦ ground arith
  ]

  placed-IsTidyTable :
      (t : ℕ) (f : F) (b : Bus A F)
      → b.next_callback_id + 1 < 2 ^ 32
      → t < max_message_types
      → IsTidyTable b
      → (o : Option (List (CallbackEntry F)))
      → Filled b.next_callback_id f (slot_at b.callback_table t).entries o
      → IsTidyTable (placed t b o).1
  unfolding placed
  placed-IsTidyTable t f b few lt h none o = record {
    types = h.types;
    tidy = λ u l.
        subst (λ x. IsTidy x (slot_at b.callback_table u)) {x = suc b.next_callback_id}
          {y = word (b.next_callback_id + 1)} (omega arith) (IsTidy-later (h.tidy u l));
  }
  placed-IsTidyTable t f b few lt h (some es) (sized, more, used, back) =
      let old = h.tidy t lt in
      let e : suc b.next_callback_id ≡ word (b.next_callback_id + 1) = omega arith in
      let s = slot_at b.callback_table t in
      record {
        types = length-set b.callback_table t _ ∙ h.types;
        tidy =
            subst
              (λ x.
                (u : ℕ)
                → u < max_message_types
                → IsTidy x (
                    slot_at
                      (set b.callback_table t (record { entries = es; count = word (s.count + 1) }))
                      u))
              e
              (set-IsTidy b.callback_table (suc b.next_callback_id) t
                (record { entries = es; count = word (s.count + 1) }) h.types
                (λ u l ne. IsTidy-later (h.tidy u l))
                (record {
                  counted =
                      omega (arith, old.counted, old.sized, more, active_callbacks-le s.entries);
                  sized = sized ∙ old.sized;
                  used = used;
                }));
      }

  removed-IsTidyTable :
      (t : ℕ) (b : Bus A F)
      → t < max_message_types
      → IsTidyTable b
      → (o : Option (Option F × List (CallbackEntry F)))
      → Taken b.next_callback_id (slot_at b.callback_table t).entries o
      → IsTidyTable (removed t b o).1
  unfolding removed
  removed-IsTidyTable t b lt h none o = h
  removed-IsTidyTable t b lt h (some (c, es)) (sized, fewer, used, was) =
      let old = h.tidy t lt in
      let s = slot_at b.callback_table t in
      record {
        types = length-set b.callback_table t _ ∙ h.types;
        tidy =
            set-IsTidy b.callback_table b.next_callback_id t
              (record { entries = es; count = sub_word s.count 1 }) h.types (λ u l ne. h.tidy u l)
              (record {
                counted =
                    omega (arith, old.counted, old.sized, fewer, active_callbacks-le s.entries);
                sized = sized ∙ old.sized;
                used = used;
              });
      }

  pub subscribe-IsTidyTable :
      (t : ℕ) (f : F) (b : Bus A F)
      → t < max_message_types
      → b.next_callback_id + 1 < 2 ^ 32
      → IsTidyTable b
      → IsTidyTable (subscribe t f b).1
  unfolding subscribe
  subscribe-IsTidyTable t f b lt few h =
      let es = (slot_at b.callback_table t).entries in
      let old = h.tidy t lt in
      placed-IsTidyTable t f b few lt h (fill_first b.next_callback_id f es)
        (fill_first-Filled b.next_callback_id f es old.used)

  pub unsubscribe-IsTidyTable :
      (a : SubscriptionHandle) (b : Bus A F) → IsTidyTable b → IsTidyTable (unsubscribe a b).1
  unfolding unsubscribe
  unsubscribe-IsTidyTable a b h =
      if_intro (λ (r : Bool × Bus A F). IsTidyTable r.1) (not (handle_is_valid a)) (λ e. h)
        (λ e.
          if_intro (λ (r : Bool × Bus A F). IsTidyTable r.1) (leb max_message_types a.type_index)
            (λ e'. h)
            (λ e'.
              let lt : a.type_index < max_message_types = ground arith in
              let es = (slot_at b.callback_table a.type_index).entries in
              let old = h.tidy a.type_index lt in
              removed-IsTidyTable a.type_index b lt h (take_out a.callback_id es)
                (take_out-Taken b.next_callback_id a.callback_id es old.used)))

  -- What Subscribe did, by its handle: it was refused, or Unsubscribe of the handle takes it back.
  abbrev pub Undoes : ℕ → F → Bus A F → SubscriptionHandle × Bus A F → Type 0
  Undoes t f b (h, b') =
      ((h ≡ handle_invalid)
        × (b'.callback_table ≡ b.callback_table)
        × (length (active_callbacks (slot_at b.callback_table t).entries) ≡ max_callbacks_per_type))
      ⊎ ((h ≡ record { type_index = t; callback_id = b.next_callback_id })
          × let (gone, b'') = unsubscribe h b' in
            (gone ≡ true)
            × ((u : ℕ)
                → u < max_message_types
                → active_callbacks (slot_at b''.callback_table u).entries
                  ≡ active_callbacks (slot_at b.callback_table u).entries))

  unsubscribe_found :
      (h : SubscriptionHandle) (b : Bus A F) (r : Option F × List (CallbackEntry F))
      → handle_is_valid h ≡ true
      → h.type_index < max_message_types
      → take_out h.callback_id (slot_at b.callback_table h.type_index).entries ≡ some r
      → unsubscribe h b ≡ removed h.type_index b (some r)
  unfolding unsubscribe
  unsubscribe_found h b r valid lt e = ground arith

  placed-Undoes :
      (t : ℕ) (f : F) (b : Bus A F)
      → b.next_callback_id + 1 < 2 ^ 32
      → t < max_message_types
      → IsTidyTable b
      → (o : Option (List (CallbackEntry F)))
      → Filled b.next_callback_id f (slot_at b.callback_table t).entries o
      → Undoes t f b (placed t b o)
  unfolding placed removed slot_at
  placed-Undoes t f b few lt h none o = inl (refl, refl, let old = h.tidy t lt in o ∙ old.sized)
  placed-Undoes t f b few lt h (some es) (sized, more, used, (es'', out, back)) =
      let s : CallbackSlot F = record {
        entries = es;
        count = word ((slot_at b.callback_table t).count + 1);
      } in
      let b' : Bus A F = record b {
        next_callback_id = word (b.next_callback_id + 1);
        callback_table = set b.callback_table t s;
      } in
      let a : SubscriptionHandle = record { type_index = t; callback_id = b.next_callback_id } in
      let at : slot_at b'.callback_table t ≡ s =
        get_or-set_self b.callback_table t s blank_slot (omega (arith, h.types)) in
      let gone : unsubscribe a b' ≡ removed t b' (some (some f, es'')) =
        unsubscribe_found a b' (some f, es'') (ground arith) lt
          (ap (λ x. take_out b.next_callback_id x.entries) at ∙ out) in
      inr (
        refl,
        subst
            (λ (r : Bool × Bus A F).
              (r.0 ≡ true)
              × ((u : ℕ)
                  → u < max_message_types
                  → active_callbacks (slot_at r.1.callback_table u).entries
                    ≡ active_callbacks (slot_at b.callback_table u).entries))
            (sym gone)
            (refl, λ u l. same_callbacks b.callback_table t s _ (omega (arith, h.types)) back u),
      )

  -- On a tidy table with ids left, Subscribe to a type in range either returns the invalid handle, changes no
  -- entry, and every entry of the type is in use; or returns a handle with a new id, and Unsubscribe of that
  -- handle succeeds and leaves the active callables of every type as they were.
  pub subscribe-unsubscribe :
      (t : ℕ) (f : F) (b : Bus A F)
      → t < max_message_types
      → b.next_callback_id + 1 < 2 ^ 32
      → IsTidyTable b
      → Undoes t f b (subscribe t f b)
  unfolding subscribe
  subscribe-unsubscribe t f b lt few h =
      let es = (slot_at b.callback_table t).entries in
      let old = h.tidy t lt in
      placed-Undoes t f b few lt h (fill_first b.next_callback_id f es)
        (fill_first-Filled b.next_callback_id f es old.used)
