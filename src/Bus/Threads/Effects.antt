-- ===== src/Bus/Threads/Effects.antt =====
-- What a move of one producer does to the ring, in five kinds, and the slots that each leaves.
use newosp.Base.{
  ℕ, ◌+◌, ◌*◌, ◌^◌, ◌≤◌, ◌<◌, ◌≡◌, ◌≢◌, inl, Option, none, some, arith, pow-pos, dec_lt,
}
use newosp.Bus.{MessageEnvelope, RingBufferNode}
use newosp.Bus.Ring.{Request}
use newosp.Bus.Threads.{Shared, Kind, fresh, Pc, owning, set_node, set_sequence, scanned, held}
use newosp.Bus.Threads.Slots.{slot_of_injective}
use newosp.Bus.Threads.Owners.{owned, node_at, Live, Knows, Inv}

-- From memory `m`, where the thread is at `pc`, to `m'`, where it is at `pc'`.
pub data Effect (bits c : ℕ) {A : Type 0} (m : Shared A) (pc : Pc A)
    : Shared A → Pc A → Type 0 where
  -- Only the cached position and the next id change.
  quiet :
      (cached id : ℕ) {pc' : Pc A}
      → owned pc' ≡ owned pc
      → Knows bits m c pc'
      → Effect bits c m pc (record m { cached_consumer_pos = cached; next_msg_id = id }) pc'
  -- A position is claimed.
  claims :
      (r : Request A)
      → m.claims < c + 2 ^ bits
      → Effect bits c m pc
          (record m { producer_pos = m.claims + 1; claims = m.claims + 1 })
          (owning fresh r m.claims)
  -- A pending message is reserved.
  reserves :
      (r : Request A) (prod cons i p : ℕ)
      → p ≡ scanned cons i
      → (node_at bits m p).sequence ≡ p + 1
      → (c ≤ p) × (p < m.claims) × (cons ≤ c)
      → Effect bits c m pc (set_sequence bits m p (p + 1 + 2 * 2 ^ bits)) (held r prod cons i)
  -- A slot that the thread owns is written.
  writes :
      (k : Kind) (p : ℕ) (n : RingBufferNode A) {pc' : Pc A}
      → owned pc ≡ some (k, p)
      → owned pc' ≡ some (k, p)
      → n.sequence ≡ (node_at bits m p).sequence
      → Knows bits (set_node bits m p n) c pc'
      → Effect bits c m pc (set_node bits m p n) pc'
  -- A slot that the thread owns is given up, with the message that is stored.
  ends :
      (k : Kind) (p : ℕ) (st : ℕ → Option (MessageEnvelope A)) {pc' : Pc A}
      → owned pc ≡ some (k, p)
      → owned pc' ≡ none
      → st p ≡ some (node_at bits m p).envelope
      → ((q : ℕ) → q ≢ p → st q ≡ m.stored q)
      → Knows bits m c pc'
      → Effect bits c m pc (record (set_sequence bits m p (p + 1)) { stored = st }) pc'

module _ {bits c : ℕ} {A : Type 0} {m : Shared A} {pcs : ℕ → Pc A} (inv : Inv bits m pcs c)
    (i : ℕ) where
  open inv use {free, live, owns, unique, knows, produced, behind, filled, room}

  pub Effect-free :
      {m' : Shared A} {pc' : Pc A}
      → Effect bits c m (pcs i) m' pc'
      → (p : ℕ) → m'.claims ≤ p
      → p < c + 2 ^ bits
      → (node_at bits m' p).sequence ≡ p
  Effect-free (quiet x y o k) p h l = free p h l
  Effect-free (claims r l') p h l = free p (omega arith) l
  Effect-free (reserves r prod cons j q e s b) p h l =
      ground (arith, free p h l, slot_of_injective bits q p)
  Effect-free (writes k q n o o' s kn) p h l =
      ground (arith, free p h l, slot_of_injective bits q p, owns i q k o)
  Effect-free (ends k q st o o' s f kn) p h l =
      ground (arith, free p h l, slot_of_injective bits q p, owns i q k o)

  pub Effect-Live :
      {m' : Shared A} {pc' : Pc A}
      → Effect bits c m (pcs i) m' pc'
      → (p : ℕ) → c ≤ p
      → p < m'.claims
      → Live bits m' p
  Effect-Live (quiet x y o k) p h l =
      let old = live p h l in
      record { phase = old.phase; published = old.published; consuming = old.consuming }
  Effect-Live (claims r l') p h l = elim (dec_lt p m.claims) [
    | yes below ↦
        let old = live p h below in
        record { phase = old.phase; published = old.published; consuming = old.consuming }
    | no last ↦
        let s = free p (omega arith) (omega arith) in
        record {
          phase = inl s;
          published = λ e. absurd (omega arith);
          consuming = λ e. absurd (omega arith);
        }
  ]
  Effect-Live (reserves r prod cons j q e s b) p h l =
      let old = live p h l in
      record {
        phase = ground (arith, old.phase, slot_of_injective bits q p, slot_of_injective bits p q);
        published = λ eq. ground (
          arith,
          old.published,
          pow-pos bits,
          slot_of_injective bits q p,
          slot_of_injective bits p q,
        );
        consuming = λ eq. ground (
          arith,
          old.consuming,
          pow-pos bits,
          slot_of_injective bits q p,
          slot_of_injective bits p q,
        );
      }
  Effect-Live (writes k q n o o' s kn) p h l =
      let old = live p h l in
      let mine = owns i q k o in
      record {
        phase = ground (arith, old.phase, slot_of_injective bits q p, slot_of_injective bits p q);
        published = λ eq. ground (
          arith,
          old.published,
          pow-pos bits,
          slot_of_injective bits q p,
          slot_of_injective bits p q,
        );
        consuming = λ eq. ground (
          arith,
          old.consuming,
          pow-pos bits,
          slot_of_injective bits q p,
          slot_of_injective bits p q,
        );
      }
  Effect-Live (ends k q st o o' s f kn) p h l =
      let old = live p h l in
      let mine = owns i q k o in
      record {
        phase = ground (arith, old.phase, slot_of_injective bits q p, slot_of_injective bits p q);
        published = λ eq. ground (
          arith,
          old.published,
          pow-pos bits,
          f p,
          slot_of_injective bits q p,
          slot_of_injective bits p q,
        );
        consuming = λ eq. ground (
          arith,
          old.consuming,
          pow-pos bits,
          f p,
          slot_of_injective bits q p,
          slot_of_injective bits p q,
        );
      }
