-- ===== src/Bus/Evict.antt =====
-- What TryEvictAndPublish picks: the first message behind the oldest with a lower priority.
use newosp.Base.{
  ℕ, zero, suc, ◌+◌, ◌*◌, ◌^◌, ◌<◌, ◌≡◌, Bool, true, false, List, [], ◌∷◌, Option, none, some,
  arith, refl, length, leb, if◌then◌else◌, ap, sym, ◌∙◌, set, drop, dec_lt, ℕ_discrete, get_elem?,
  get_elem?-lt, get_elem?-set_self, get_elem?-set_ne, length-set, drop_elem, drop_past,
  get_elem?-total,
}
use newosp.Bus.{Bus, MessageEnvelope, high, rank, slot_of, word}
use newosp.Bus.Ring.{Request, envelope_of, fill, find_victim, evict_at}
use newosp.Bus.Threads.Slots.{slot_of_unique}
use newosp.Bus.Queue.{Window}
use mathlib.Core.Option

abbrev pub first_lower : {A : Type 0} → List (MessageEnvelope A) → Option ℕ
first_lower [] = none
first_lower (m ∷ msgs) =
    let rest = first_lower msgs in
    if leb (rank high) (rank m.header.priority) then Option.map suc rest else some 0

unsome : {A : Type 0} {x y : A} → some x ≡ some y → x ≡ y
unsome e = cc

shifted :
    (a : ℕ) (t : Bool) (o : Option ℕ)
    → Option.map (λ j. a + j) (if t then Option.map suc o else some 0)
      ≡ (if t then Option.map (λ j. suc a + j) o else some a)
shifted a true none = refl
shifted a true (some j) = ap some (omega arith)
shifted a false o = ap some (omega arith)

module _ {A F : Type 0} (bits c : ℕ) (b : Bus A F) (msgs : List (MessageEnvelope A))
    (few : c + 3 * 2 ^ bits < 2 ^ 32) (w : Window bits c b msgs) where
  pub find_victim-eq :
      (i n : ℕ)
      → i + n ≡ 2 ^ bits
      → find_victim bits b b.producer_pos c i n
        ≡ Option.map (λ j. c + i + j) (first_lower (drop i msgs))
  unfolding find_victim
  find_victim-eq i zero e =
      let empty = drop_past msgs i (omega (arith, w.fits)) in
      sym (ap (λ l. Option.map (λ j. c + i + j) (first_lower l)) empty)
  find_victim-eq i (suc n) e =
      let wd : word (c + i) ≡ c + i = omega arith in
      elim (dec_lt i (length msgs)) [
        | yes inside ↦
            let (m, at) = get_elem?-total msgs i inside in
            let node = w.pending i m at in
            let shape = drop_elem msgs i m at in
            let rec = find_victim-eq (i + 1) n (omega arith) in
            let here = ap (λ x. b.ring_buffer (slot_of bits x)) wd in
            let lower : Option.map (λ j. c + i + j) (first_lower (drop i msgs)) ≡ (
                if leb (rank high) (rank m.header.priority)
                then Option.map (λ j. suc (c + i) + j) (first_lower (drop (suc i) msgs))
                else some (c + i)) =
              ap (λ l. Option.map (λ j. c + i + j) (first_lower l)) shape
              ∙ shifted (c + i) (leb (rank high) (rank m.header.priority))
                  (first_lower (drop (suc i) msgs)) in
            let again =
              ap (λ x. Option.map (λ j. x + j) (first_lower (drop (i + 1) msgs))) {x = c + (i + 1)}
                {y = suc (c + i)} (omega arith) in
            ground (arith, ap (λ x. drop x msgs) {x = i + 1} {y = suc i} (omega arith))
        | no outside ↦
            let empty = drop_past msgs i (omega arith) in
            let empty' = drop_past msgs (i + 1) (omega arith) in
            let free = w.free i (omega arith) (omega arith) in
            let rec = find_victim-eq (i + 1) n (omega arith) in
            let here = ap (λ x. b.ring_buffer (slot_of bits x)) wd in
            ground (
              arith,
              ap (λ l. Option.map (λ j. c + i + j) (first_lower l)) empty,
              ap (λ l. Option.map (λ j. c + (i + 1) + j) (first_lower l)) empty',
            )
      ]

  -- A pending message overwritten with one of another priority.
  pub evict_at-Window :
      (r : Request A) (i : ℕ)
      → r.priority ≡ high
      → i < length msgs
      → Window bits c (evict_at bits r b (c + i)) (set msgs i (envelope_of r b.next_msg_id))
  unfolding evict_at fill
  evict_at-Window r i top l =
      let e' = envelope_of r b.next_msg_id in
      record {
        upto = omega (arith, w.upto, length-set msgs i e');
        fits = omega (arith, w.fits, length-set msgs i e');
        pending = λ j e h. elim (ℕ_discrete i j) [
          | yes same ↦
              let got : e' ≡ e = unsome (
                sym (get_elem?-set_self msgs i e' l)
                ∙ ap (λ x. get_elem? (set msgs i e') x) same
                ∙ h) in
              ground (
                arith,
                ap (λ x. slot_of bits (c + x)) same,
                ap (λ x. x.header.priority) got,
                w.fits,
              )
          | no other ↦
              let h' = sym (get_elem?-set_ne msgs i j e' other) ∙ h in
              let l' = get_elem?-lt msgs j h' in
              ground (arith, w.pending j e h', w.fits, slot_of_unique bits c (c + i) (c + j))
        ];
        free = λ j from to.
            ground (
              arith,
              w.free j,
              w.fits,
              length-set msgs i e',
              slot_of_unique bits c (c + i) (c + j),
            );
      }
