-- ===== src/Bus/Entries.antt =====
-- The entries of one type in the callback table, and what the loops over them leave.
use newosp.Base.{
  ℕ, zero, suc, ◌+◌, ◌≤◌, ◌<◌, ◌≡◌, ◌≢◌, true, false, List, [], ◌∷◌, ◌&&◌, ◌==◌, Option, none, some,
  arith, refl, length, ℕ_discrete, All, All-mono, if◌then◌else◌, ap, sym, ◌∙◌, set, get_or,
  if_intro, subst, get_or-set_self, get_or-set_ne, length-set, replicate,
}
use newosp.Bus.{CallbackEntry, CallbackSlot, max_message_types, max_callbacks_per_type}
use newosp.Bus.Table.{blank_slot, blank_entry, fill_first, take_out, call_loop, is_set, slot_at}
use mathlib.Core.Option

module _ {F : Type 0} where
  -- The callables of the active entries, in the table's order.
  abbrev pub active_callbacks : List (CallbackEntry F) → List (Option F)
  active_callbacks [] = []
  active_callbacks (e ∷ es) =
      let rest = active_callbacks es in if e.active then e.callback ∷ rest else rest

  -- An active entry has a callable and an id below the next.
  abbrev pub IsUsed : ℕ → CallbackEntry F → Type 0
  IsUsed next e = e.active ≡ true → (e.id < next) × ((f : F) × (e.callback ≡ some f))

  pub record IsTidy (next : ℕ) (s : CallbackSlot F) : Type 0 where
    pub counted : s.count ≡ length (active_callbacks s.entries)
    pub sized : length s.entries ≡ max_callbacks_per_type
    pub used : All (IsUsed next) s.entries

  pub none_active :
      (es : List (CallbackEntry F)) → length (active_callbacks es) ≡ 0 → active_callbacks es ≡ []
  none_active es e = no_items (active_callbacks es) e
    where
      no_items : (l : List (Option F)) → length l ≡ 0 → l ≡ []
      no_items [] e = refl
      no_items (x ∷ l) e = absurd (omega arith)

  pub active_callbacks-le : (es : List (CallbackEntry F)) → length (active_callbacks es) ≤ length es
  active_callbacks-le [] = omega arith
  active_callbacks-le (e ∷ es) = ground (arith, active_callbacks-le es)

  -- The loop stops at the count, and misses no active entry for it.
  pub call_loop-eq :
      (count found : ℕ) (es : List (CallbackEntry F))
      → count ≡ found + length (active_callbacks es)
      → call_loop count found es ≡ active_callbacks es
  unfolding call_loop
  call_loop-eq count found [] e = refl
  call_loop-eq count found (x ∷ es) e =
      ground (arith, call_loop-eq count (found + 1) es, call_loop-eq count found es, none_active es)

  -- What the loop of Subscribe leaves, from `es` on.
  abbrev pub Filled : ℕ → F → List (CallbackEntry F) → Option (List (CallbackEntry F)) → Type 0
  Filled id f es none = length (active_callbacks es) ≡ length es
  Filled id f es (some es') =
      (length es' ≡ length es)
      × (length (active_callbacks es') ≡ suc (length (active_callbacks es)))
      × All (IsUsed (suc id)) es'
      × ((es'' : List (CallbackEntry F)) × (take_out id es' ≡ some (some f, es''))
          × (active_callbacks es'' ≡ active_callbacks es))

  IsUsed-mono : (id : ℕ) (e : CallbackEntry F) → IsUsed id e → IsUsed (suc id) e
  IsUsed-mono id e u a = let (lt, c) = u a in (omega arith, c)

  -- An entry in use before the one that is filled stays, and is not taken out for it.
  Filled-cons :
      (id : ℕ) (f : F) (e : CallbackEntry F) (es : List (CallbackEntry F))
      → e.active ≡ true
      → IsUsed id e
      → (o : Option (List (CallbackEntry F))) → Filled id f es o
      → Filled id f (e ∷ es) (Option.map (λ es'. e ∷ es') o)
  unfolding take_out
  Filled-cons id f e es a u none h = ground arith
  Filled-cons id f e es a u (some es') (sized, more, used, (es'', out, back)) = (
    omega (arith, sized),
    ground (arith, more),
    (IsUsed-mono id e u, used),
    (e ∷ es'', let (lt, c) = u a in ground (arith, out, lt), ground (arith, back)),
  )

  pub fill_first-Filled :
      (id : ℕ) (f : F) (es : List (CallbackEntry F))
      → All (IsUsed id) es
      → Filled id f es (fill_first id f es)
  unfolding fill_first take_out
  fill_first-Filled id f [] u = refl
  fill_first-Filled id f (e ∷ es) u =
      if_intro (Filled id f (e ∷ es)) e.active
        (λ a. Filled-cons id f e es a u.0 (fill_first id f es) (fill_first-Filled id f es u.1))
        (λ a. (
          refl,
          (ground arith),
          (
            (λ x. (omega arith, (f, refl))),
            All-mono (IsUsed id) (IsUsed (suc id)) (IsUsed-mono id) es u.1,
          ),
          (record { id = id; callback = none; active = false } ∷ es, ground arith, ground arith),
        ))

  -- What the loop of Unsubscribe leaves, from `es` on.
  abbrev pub Taken :
      ℕ → List (CallbackEntry F) → Option (Option F × List (CallbackEntry F)) → Type 0
  Taken next es none = Unit
  Taken next es (some (c, es')) =
      (length es' ≡ length es)
      × (suc (length (active_callbacks es')) ≡ length (active_callbacks es))
      × All (IsUsed next) es'
      × (is_set c ≡ true)

  Taken-cons :
      (next : ℕ) (e : CallbackEntry F) (es : List (CallbackEntry F))
      → IsUsed next e
      → (o : Option (Option F × List (CallbackEntry F))) → Taken next es o
      → Taken next (e ∷ es) (Option.map (λ r. (r.0, e ∷ r.1)) o)
  Taken-cons next e es u none h = tt
  Taken-cons next e es u (some (c, es')) (sized, fewer, used, set) =
      (omega (arith, sized), ground (arith, fewer), (u, used), set)

  pub take_out-Taken :
      (next id : ℕ) (es : List (CallbackEntry F))
      → All (IsUsed next) es
      → Taken next es (take_out id es)
  unfolding take_out
  take_out-Taken next id [] u = tt
  take_out-Taken next id (e ∷ es) u =
      if_intro (Taken next (e ∷ es)) (e.active && (e.id == id))
        (λ h.
          let a : e.active ≡ true = ground arith in
          let (lt, (f, c)) = u.0 a in
          (refl, ground arith, ((λ x. absurd cc), u.1), ground (arith, c)))
        (λ h. Taken-cons next e es u.0 (take_out id es) (take_out-Taken next id es u.1))

  pub IsTidy-later : {next : ℕ} {s : CallbackSlot F} → IsTidy next s → IsTidy (suc next) s
  IsTidy-later {next} {s} t = record {
    counted = t.counted;
    sized = t.sized;
    used = All-mono (IsUsed next) (IsUsed (suc next)) (IsUsed-mono next) s.entries t.used;
  }

  -- One type's slot replaced by a tidy one.
  pub set-IsTidy :
      (table : List (CallbackSlot F)) (next t : ℕ) (s : CallbackSlot F)
      → length table ≡ max_message_types
      → ((u : ℕ) → u < max_message_types → u ≢ t → IsTidy next (slot_at table u))
      → IsTidy next s
      → (u : ℕ) → u < max_message_types
      → IsTidy next (slot_at (set table t s) u)
  unfolding slot_at
  set-IsTidy table next t s len others new u lt = elim (ℕ_discrete t u) [
    | yes here ↦
        subst (λ x. IsTidy next x)
          (sym (get_or-set_self table u s blank_slot (omega arith))
            ∙ ap (λ x. get_or (set table x s) u blank_slot) (sym here))
          new
    | no there ↦
        subst (λ x. IsTidy next x) (sym (get_or-set_ne table t u s blank_slot there))
          (others u lt (λ e. there (sym e)))
  ]

  -- The active callables of each type, when one type's slot is replaced twice.
  pub same_callbacks :
      (table : List (CallbackSlot F)) (t : ℕ) (s s' : CallbackSlot F)
      → t < length table
      → active_callbacks s'.entries ≡ active_callbacks (slot_at table t).entries
      → (u : ℕ)
      → active_callbacks (slot_at (set (set table t s) t s') u).entries
        ≡ active_callbacks (slot_at table u).entries
  unfolding slot_at
  same_callbacks table t s s' lt e u = elim (ℕ_discrete t u) [
    | yes here ↦
        subst
          (λ x.
            active_callbacks (get_or (set (set table t s) t s') x blank_slot).entries
            ≡ active_callbacks (get_or table x blank_slot).entries)
          here
          (ap (λ x. active_callbacks x.entries)
              (get_or-set_self (set table t s) t s' blank_slot
                (omega (arith, length-set table t s)))
            ∙ e)
    | no there ↦
        ap (λ x. active_callbacks x.entries)
          (get_or-set_ne (set table t s) t u s' blank_slot there
            ∙ get_or-set_ne table t u s blank_slot there)
  ]

  All-replicate :
      (P : CallbackEntry F → Type 0) (n : ℕ) (e : CallbackEntry F) → P e → All P (replicate n e)
  All-replicate P zero e h = tt
  All-replicate P (suc n) e h = (h, All-replicate P n e h)

  pub blank-IsTidy : (next : ℕ) → IsTidy next blank_slot
  unfolding blank_slot blank_entry
  blank-IsTidy next = record {
    counted = refl;
    sized = refl;
    used = All-replicate (IsUsed next) max_callbacks_per_type blank_entry (λ a. absurd cc);
  }

pub get_or-replicate {ℓ} : {A : Type ℓ} (n i : ℕ) (a : A) → get_or (replicate n a) i a ≡ a
get_or-replicate zero i a = refl
get_or-replicate (suc n) zero a = refl
get_or-replicate (suc n) (suc i) a = get_or-replicate n i a
