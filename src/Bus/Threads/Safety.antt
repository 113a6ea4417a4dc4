-- ===== src/Bus/Threads/Safety.antt =====
-- What no order of the threads' steps can break.
use native.Mathlib.Nat.{mod-eq_of_lt}
use newosp.Base.{
  ℕ, ◌+◌, ◌*◌, ◌^◌, ◌≤◌, ◌<◌, ◌≡◌, ◌≢◌, some, arith, refl, pow-pos, length, get_elem?, subst, ◌∙◌,
}
use newosp.Bus.{slot_of, Payload}
use newosp.Bus.Ring.{Request}
use newosp.Bus.Threads.{Shared, Kind, Pc, exchanging, ConsumerPc, dispatching}
use newosp.Bus.Threads.Moves.{Move, claim}
use newosp.Bus.Threads.Steps.{
  System, ConsumerMove, take, Step, produce, consume, start, Reach, started, later,
}
use newosp.Bus.Threads.Slots.{slot_of_unique, slot_of-mod}
use newosp.Bus.Threads.Owners.{owned, node_at, reached, Busy, Knows, Inv}
use newosp.Bus.Threads.Consumer.{owned_later}
use newosp.Bus.Threads.Sound.{Sound, Step-Sound}

start-Sound : (bits : ℕ) {A : Type 0} (payload : Payload A) → Sound bits (start payload)
start-Sound bits payload = record {
  inv = record {
    produced = refl;
    behind = omega arith;
    filled = omega arith;
    room = omega arith;
    free = λ p h l. slot_of-mod bits p ∙ mod-eq_of_lt (omega arith);
    live = λ p h l. absurd (omega arith);
    owns = λ i p k o. absurd cc;
    unique = λ i j p k l o o'. absurd cc;
    knows = λ i. tt;
  };
  busy = tt;
  rounds = tt;
  delivers = record { counted = refl; same = λ p l. absurd (omega arith) };
}

Move-claims :
    {bits : ℕ} {A : Type 0} {m m' : Shared A} {p p' : Pc A}
    → Move bits m p m' p'
    → m.claims ≤ m'.claims
Move-claims (claim e) = omega arith
Move-claims mv = omega arith

ConsumerMove-claims :
    {bits : ℕ} {A : Type 0} {m m' : Shared A} {p p' : ConsumerPc}
    → ConsumerMove bits m p m' p'
    → m.claims ≤ m'.claims
ConsumerMove-claims (take lt e) = omega arith
ConsumerMove-claims mv = omega arith

pub Step-claims :
    {bits : ℕ} {A : Type 0} {s t : System A} → Step bits s t → s.shared.claims ≤ t.shared.claims
Step-claims (produce i mv) = Move-claims mv
Step-claims (consume mv) = ConsumerMove-claims mv

pub Reach-Sound :
    {bits : ℕ} {A : Type 0} {payload : Payload A} {s : System A}
    → 1 ≤ bits
    → Reach bits payload s
    → s.shared.claims + 3 * 2 ^ bits < 2 ^ 32
    → Sound bits s
Reach-Sound {bits} {payload} wide started few = start-Sound bits payload
Reach-Sound wide (later r st) few =
    let before : _ < 2 ^ 32 = omega (arith, Step-claims st, few) in
    Step-Sound wide before st (Reach-Sound wide r before)

module _ {bits : ℕ} {A : Type 0} {payload : Payload A} {s : System A} (wide : 1 ≤ bits)
    (r : Reach bits payload s) (few : s.shared.claims + 3 * 2 ^ bits < 2 ^ 32) where
  sound : Sound bits s
  sound = Reach-Sound wide r few

  one_owner :
      (i j p q : ℕ) (k l : Kind)
      → owned (s.pcs i) ≡ some (k, p)
      → owned (s.pcs j) ≡ some (l, q)
      → slot_of bits p ≡ slot_of bits q
      → (i ≡ j) × (p ≡ q)
  one_owner i j p q k l o o' e =
      let inv = sound.inv in
      let (from, to, x) = inv.owns i p k o in
      let (from', to', y) = inv.owns j q l o' in
      let same : p ≡ q =
        slot_of_unique bits (reached s.shared s.consumer) p q from (omega (arith, inv.room)) from'
          (omega (arith, inv.room)) e in
      (inv.unique i j q k l (subst (λ x. owned (s.pcs i) ≡ some (k, x)) same o) o', same)

  dispatched_alone :
      (cons n i p : ℕ) (k : Kind)
      → s.consumer ≡ dispatching cons n
      → owned (s.pcs i) ≡ some (k, p)
      → slot_of bits p ≢ slot_of bits cons
  dispatched_alone cons n i p k e o same =
      let inv' : Inv bits s.shared s.pcs cons =
        subst (λ x. Inv bits s.shared s.pcs (reached s.shared x)) e sound.inv in
      let busy' : Busy bits s.shared (dispatching cons n) =
        subst (λ x. Busy bits s.shared x) e sound.busy in
      let after : cons < p = owned_later wide few inv' busy'.0 busy'.1 i p k o in
      let (from, to, x) = inv'.owns i p k o in
      omega (
        arith,
        slot_of_unique bits cons p cons from (omega (arith, inv'.room)) (omega arith)
            (omega (arith, pow-pos bits)) same,
      )

  -- Whatever order the steps of the producers and the consumer of a bus of depth two or more come in, from
  -- its construction on, while the positions fit their words: two producers that own slots, to fill a claimed
  -- slot or to overwrite a reserved one, never own the same slot, and none owns the slot that the consumer
  -- is dispatching from.
  pub slots_exclusive :
      ((i j p q : ℕ) (k l : Kind)
        → owned (s.pcs i) ≡ some (k, p)
        → owned (s.pcs j) ≡ some (l, q)
        → slot_of bits p ≡ slot_of bits q
        → (i ≡ j) × (p ≡ q))
      × ((cons n i p : ℕ) (k : Kind)
          → s.consumer ≡ dispatching cons n
          → owned (s.pcs i) ≡ some (k, p)
          → slot_of bits p ≢ slot_of bits cons)
  slots_exclusive = (one_owner, dispatched_alone)

  -- In every such order of steps, the consumer has dispatched exactly one message for each position that it
  -- has passed, in the order of the positions, and each is the complete message last published there.
  pub delivered_in_order :
      (length s.shared.delivered ≡ reached s.shared s.consumer)
      × ((p : ℕ)
          → p < reached s.shared s.consumer
          → get_elem? s.shared.delivered p ≡ s.shared.stored p)
  delivered_in_order = (sound.delivers.counted, sound.delivers.same)

  -- In every such order of steps, a producer whose exchange of `producer_pos_` is about to succeed finds the
  -- slot of that position free, also when it came to the exchange by `continue` with no second look at the
  -- sequence.
  pub claimed-free :
      (i p : ℕ) (q : Request A)
      → s.pcs i ≡ exchanging q p
      → s.shared.producer_pos ≡ p
      → (node_at bits s.shared p).sequence ≡ p
  claimed-free i p q e last =
      let inv = sound.inv in
      let know : (p ≤ s.shared.claims)
          × (p ≡ s.shared.claims → p < reached s.shared s.consumer + 2 ^ bits) =
        subst (λ x. Knows bits s.shared (reached s.shared s.consumer) x) e (inv.knows i) in
      inv.free p (omega (arith, inv.produced)) (omega (arith, know.1 (omega (arith, inv.produced))))
