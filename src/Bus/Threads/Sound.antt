-- ===== src/Bus/Threads/Sound.antt =====
-- The invariant of the bus with its threads: that of the ring, of the consumer's locals and of what was
-- dispatched. Every step keeps it.
use newosp.Base.{
  ℕ, ◌+◌, ◌*◌, ◌^◌, ◌≤◌, ◌<◌, ◌≡◌, some, arith, refl, pow-pos, ap, ◌∙◌, dec_lt, sym, [], ◌∷◌, ◌++◌,
  subst, length, get_elem?, length-append, get_elem?-append, get_elem?-append_end,
}
use newosp.Bus.{update, word, consumed_offset, queue_depth, MessageEnvelope}
use newosp.Bus.Threads.{Shared, Pc, set_sequence, ConsumerPc, testing, dispatching}
use newosp.Bus.Threads.Steps.{
  System, ConsumerMove, begin, take, break_off, batch_done, dispatch, advance, nothing, Step,
  produce, consume,
}
use newosp.Bus.Threads.Owners.{node_at, reached, Busy, Inv, Delivers}
use newosp.Bus.Threads.Effects.{Effect}
use newosp.Bus.Threads.Kept.{Move-Effect_at}
use newosp.Bus.Threads.Consumer.{released, taken-Inv, pending, released-Inv, advanced-Inv}
use newosp.Bus.Threads.Owning.{Effect-Inv, Effect-claims}
use newosp.Bus.Threads.Aside.{Rounds, Effect-Aside, reached-Aside, Rounds-Aside, Busy-Aside}

pub record Sound (bits : ℕ) {A : Type 0} (s : System A) : Type 0 where
  pub inv : Inv bits s.shared s.pcs (reached s.shared s.consumer)
  pub busy : Busy bits s.shared s.consumer
  pub rounds : Rounds s.shared s.consumer
  pub delivers : Delivers s.shared (reached s.shared s.consumer)

module _ {bits : ℕ} (wide : 1 ≤ bits) {A : Type 0} {s : System A}
    (few : s.shared.claims + 3 * 2 ^ bits < 2 ^ 32) (sound : Sound bits s) where
  open sound use {inv, busy, rounds, delivers}

  produce-Sound :
      (i : ℕ) {m' : Shared A} {pc' : Pc A}
      → Effect bits (reached s.shared s.consumer) s.shared (s.pcs i) m' pc'
      → Sound bits (record s { shared = m'; pcs = update s.pcs i pc' })
  produce-Sound i {m'} {pc'} f =
      let a = Effect-Aside inv i f in
      let at : reached m' s.consumer ≡ reached s.shared s.consumer = reached-Aside s.consumer a in
      record {
        inv = subst (λ x. Inv bits m' (update s.pcs i pc') x) (sym at) (Effect-Inv inv i f);
        busy = Busy-Aside s.consumer (Effect-claims inv i f) a busy;
        rounds = Rounds-Aside s.consumer a rounds;
        delivers =
            subst (λ x. Delivers m' x) (sym at)
              (record {
                counted = ap length a.delivered ∙ delivers.counted;
                same = λ p l.
                    ap (λ x. get_elem? x p) a.delivered ∙ delivers.same p l ∙ sym (a.passed p l);
              });
      }

  -- A message dispatched is the next one delivered.
  dispatch-Delivers :
      {c : ℕ} {m : Shared A} (m' : Shared A) {e : MessageEnvelope A}
      → Delivers m c
      → m.stored c ≡ some e
      → m'.delivered ≡ m.delivered ++ e ∷ []
      → m'.stored ≡ m.stored
      → Delivers m' (c + 1)
  dispatch-Delivers {c} {m} m' {e} d sent out keep = record {
    counted = ap length out ∙ length-append m.delivered (e ∷ []) ∙ omega (arith, d.counted);
    same = λ p l. elim (dec_lt p c) [
      | yes before ↦
          ap (λ x. get_elem? x p) out
          ∙ get_elem?-append m.delivered (e ∷ []) p (omega (arith, d.counted))
          ∙ d.same p before
          ∙ ap (λ f. f p) (sym keep)
      | no last ↦
          let here : p ≡ c = omega arith in
          ap (λ x. get_elem? x p) out
          ∙ get_elem?-append_end m.delivered e p (omega (arith, d.counted))
          ∙ sym sent
          ∙ ap (λ f. f c) (sym keep)
          ∙ ap m'.stored (sym here)
    ];
  }

  consume-Sound :
      {pc pc' : ConsumerPc} {m' : Shared A}
      → ConsumerMove bits s.shared pc m' pc'
      → s.consumer ≡ pc
      → Inv bits s.shared s.pcs (reached s.shared pc)
      → Busy bits s.shared pc
      → Rounds s.shared pc
      → Delivers s.shared (reached s.shared pc)
      → Sound bits (record s { shared = m'; consumer = pc' })
  consume-Sound begin e v b r d = record {
    inv = v;
    busy = tt;
    rounds = (omega arith, omega arith);
    delivers = d;
  }
  consume-Sound (take {cons} {i} lt p) e v b r d =
      let e : (node_at bits s.shared cons).sequence ≡ cons + 1 =
        p ∙ omega (arith, v.filled, pow-pos bits) in
      let l : cons < s.shared.claims = pending wide few v e in
      subst
        (λ x.
          Sound bits (record s {
            shared = set_sequence bits s.shared cons x;
            consumer = dispatching cons i;
          }))
        {x = cons + 1 + 2 ^ bits} {y = word (word (cons + 1) + consumed_offset bits)} (omega arith)
        (record {
          inv = taken-Inv wide few v e;
          busy = (l, ground arith);
          rounds = (r.0, lt);
          delivers = record { counted = d.counted; same = d.same };
        })
  consume-Sound (break_off h) e v b r d = record { inv = v; busy = tt; rounds = r; delivers = d }
  consume-Sound (batch_done h) e v b r d = record { inv = v; busy = tt; rounds = r; delivers = d }
  consume-Sound (dispatch {cons} {i}) e v b r d =
      let sent : s.shared.stored cons ≡ some (node_at bits s.shared cons).envelope =
        (v.live cons (omega arith) b.0).consuming b.1 in
      let d' = s.shared.delivered ++ (node_at bits s.shared cons).envelope ∷ [] in
      subst
        (λ x. Sound bits (record s {
          shared = record (set_sequence bits s.shared cons x) { delivered = d' };
          consumer = testing (word (cons + 1)) (i + 1);
        }))
        {x = cons + 2 ^ bits} {y = word (cons + queue_depth bits)} (omega (arith, b.0))
        (subst
          (λ x.
            Sound bits
              (record s { shared = released bits cons s.shared d'; consumer = testing x (i + 1) }))
          {x = cons + 1} {y = word (cons + 1)} (omega (arith, b.0))
          (record {
            inv = released-Inv wide few v b.0 b.1 d';
            busy = tt;
            rounds = (omega (arith, r.0), omega (arith, r.1));
            delivers = dispatch-Delivers (released bits cons s.shared d') d sent refl refl;
          }))
  consume-Sound (advance {cons} h) e v b r d = record {
    inv = advanced-Inv wide few v;
    busy = tt;
    rounds = tt;
    delivers = record { counted = d.counted; same = d.same };
  }
  consume-Sound (nothing {cons}) e v b r d =
      let same : cons ≡ s.shared.consumer_pos = omega (arith, r.0) in
      record {
        inv = subst (λ x. Inv bits s.shared s.pcs x) same v;
        busy = tt;
        rounds = tt;
        delivers = subst (λ x. Delivers s.shared x) same d;
      }

-- Every step keeps the invariant while the positions fit their words.
pub Step-Sound :
    {bits : ℕ} {A : Type 0} {s t : System A}
    → 1 ≤ bits
    → s.shared.claims + 3 * 2 ^ bits < 2 ^ 32
    → Step bits s t
    → Sound bits s
    → Sound bits t
Step-Sound {s} wide few (produce i mv) sound =
    produce-Sound wide few sound i (Move-Effect_at wide few sound.inv i mv)
Step-Sound {s} wide few (consume mv) sound =
    consume-Sound wide few sound mv refl sound.inv sound.busy sound.rounds sound.delivers
