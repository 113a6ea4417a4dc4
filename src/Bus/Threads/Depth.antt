-- ===== src/Bus/Threads/Depth.antt =====
-- `Depth` of AsyncBus, called while the threads go on: its two loads are of two moments.
use newosp.Base.{ℕ, ◌+◌, ◌*◌, ◌^◌, ◌≤◌, ◌<◌, ◌≡◌, ◌⊎◌, inl, inr, arith, refl, dec_lt, ◌-◌}
use newosp.Bus.{sub_word, batch_size, queue_depth, Payload}
use newosp.Bus.Threads.{Shared, Pc, ConsumerPc, outside, testing, dispatching, stopping}
use newosp.Bus.Threads.Moves.{Move, claim}
use newosp.Bus.Threads.Steps.{System, ConsumerMove, advance, Step, produce, consume, Reach, later}
use newosp.Bus.Threads.Owners.{reached}
use newosp.Bus.Threads.Aside.{Rounds}
use newosp.Bus.Threads.Safety.{Step-claims, Reach-Sound}

-- `Depth` with `producer_pos_` loaded from one state of the bus and `consumer_pos_` from a later one.
unfoldable pub loaded_depth : {A : Type 0} → Shared A → Shared A → ℕ
loaded_depth first second = sub_word first.producer_pos second.consumer_pos

-- What the threads do between the loads.
pub data Steps (bits : ℕ) {A : Type 0} (s : System A) : System A → Type 0 where
  at_once : Steps bits s s
  and_then : {t u : System A} → Steps bits s t → Step bits t u → Steps bits s u

Steps-claims :
    {bits : ℕ} {A : Type 0} {s t : System A} → Steps bits s t → s.shared.claims ≤ t.shared.claims
Steps-claims at_once = omega arith
Steps-claims (and_then sts st) = omega (arith, Steps-claims sts, Step-claims st)

Steps-Reach :
    {bits : ℕ} {A : Type 0} {payload : Payload A} {s t : System A}
    → Reach bits payload s
    → Steps bits s t
    → Reach bits payload t
Steps-Reach r at_once = r
Steps-Reach r (and_then sts st) = later (Steps-Reach r sts) st

Move-consumer_pos :
    {bits : ℕ} {A : Type 0} {m m' : Shared A} {p p' : Pc A}
    → Move bits m p m' p'
    → m'.consumer_pos ≡ m.consumer_pos
Move-consumer_pos (claim e) = refl
Move-consumer_pos mv = refl

ConsumerMove-consumer_pos :
    {bits : ℕ} {A : Type 0} {m m' : Shared A} {p p' : ConsumerPc}
    → ConsumerMove bits m p m' p'
    → Rounds m p
    → m.consumer_pos ≤ m'.consumer_pos
ConsumerMove-consumer_pos (advance h) r = omega (arith, r.0)
ConsumerMove-consumer_pos mv r = omega arith

Step-consumer_pos :
    {bits : ℕ} {A : Type 0} {s t : System A}
    → Step bits s t
    → Rounds s.shared s.consumer
    → s.shared.consumer_pos ≤ t.shared.consumer_pos
Step-consumer_pos (produce i mv) r = omega (arith, Move-consumer_pos mv)
Step-consumer_pos (consume mv) r = ConsumerMove-consumer_pos mv r

passed-le :
    {A : Type 0} (m : Shared A) (pc : ConsumerPc)
    → Rounds m pc
    → reached m pc ≤ m.consumer_pos + batch_size
passed-le m outside r = omega arith
passed-le m (testing cons i) r = omega (arith, r.0, r.1)
passed-le m (dispatching cons i) r = omega (arith, r.0, r.1)
passed-le m (stopping cons i) r = omega (arith, r.0, r.1)

module _ {bits : ℕ} {A : Type 0} {payload : Payload A} {s : System A} (wide : 1 ≤ bits)
    (r : Reach bits payload s) where
  Steps-consumer_pos :
      {t : System A}
      → Steps bits s t
      → t.shared.claims + 3 * 2 ^ bits < 2 ^ 32
      → s.shared.consumer_pos ≤ t.shared.consumer_pos
  Steps-consumer_pos at_once few = omega arith
  Steps-consumer_pos (and_then sts st) few =
      let before : _ + 3 * 2 ^ bits < 2 ^ 32 = omega (arith, Step-claims st, few) in
      let sound = Reach-Sound wide (Steps-Reach r sts) before in
      omega (arith, Steps-consumer_pos sts before, Step-consumer_pos st sound.rounds)

  -- In every order of steps of the threads of a bus of depth two or more, from its construction on and while
  -- the positions fit their words, with any steps between the two loads of `Depth`: if the consumer has not
  -- passed the producers' position that the first has read, the result is at most `kQueueDepth` and one batch,
  -- since the slots that the consumer has released count as pending until its batch ends. If it has, the
  -- difference wraps: the result is 2^32 less the number of messages that it is ahead.
  pub loaded_depth_bounded :
      {t : System A}
      → Steps bits s t
      → t.shared.claims + 3 * 2 ^ bits < 2 ^ 32
      → ((t.shared.consumer_pos ≤ s.shared.producer_pos)
          × (loaded_depth s.shared t.shared ≤ queue_depth bits + batch_size))
        ⊎ ((s.shared.producer_pos < t.shared.consumer_pos)
            × (loaded_depth s.shared t.shared + (t.shared.consumer_pos - s.shared.producer_pos)
                ≡ 2 ^ 32))
  unfolding loaded_depth
  loaded_depth_bounded {t} sts few =
      let here = Reach-Sound wide r (omega (arith, Steps-claims sts, few)) in
      let there = Reach-Sound wide (Steps-Reach r sts) few in
      let moved = Steps-consumer_pos sts few in
      let passed = passed-le s.shared s.consumer here.rounds in
      let inv = here.inv in
      let inv' = there.inv in
      elim (dec_lt s.shared.producer_pos t.shared.consumer_pos) [
        | yes ahead ↦ inr (ahead, omega (arith, inv'.behind, inv'.filled, few))
        | no behind ↦ inl (
          omega arith,
          omega (
            arith,
            inv.produced,
            inv.room,
            inv.behind,
            inv.filled,
            moved,
            passed,
            few,
            Steps-claims sts,
          ),
        )
      ]
