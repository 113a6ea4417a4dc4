-- ===== src/Breaker/Packed.antt =====
-- The packed word of the breaker: packing loses nothing, and the handlers on the word are the
-- transitions on the state.
use newosp.Base.{
  ℕ, ◌+◌, ◌*◌, ◌/◌, ◌%◌, ◌^◌, ◌≤◌, ◌<◌, bit_or, bit_and-mask, bit_or-fields, Bool, true, false,
  List, [], ◌∷◌, ◌≡◌, refl, ap, ◌∙◌, arith, ◌==◌, not,
}
use newosp.Breaker.Transitions.{
  BreakerLevel, normal, broken_l1, broken_l2, safe, recovering, unnamed, level_code, level_of,
  State, fresh,
}
use newosp.Breaker.{
  level, shl32, bit_of, pack, unpack, update, Input, transition, handle, handle_all,
}

abbrev pub IsNamed : BreakerLevel → Type 0
IsNamed (unnamed n) = ⊥
IsNamed _ = Unit

-- A state whose fields fit the bits that `Pack` gives them.
pub record Fits (s : State) : Type 0 where
  pub named : IsNamed s.level
  pub cooldown : s.cooldown_remaining < 65536
  pub direct : s.direct_timeout_consec ≤ 3
  pub rtc : s.rtc_timeout_consec ≤ 3
  pub high : s.high_watermark_consec ≤ 3
  pub low : s.low_watermark_consec ≤ 3
  pub healthy : s.healthy_window_count ≤ 3

level_code-le : (l : BreakerLevel) → IsNamed l → level_code l ≤ 4
level_code-le (unnamed n) h = absurd h
level_code-le normal h = omega arith
level_code-le broken_l1 h = omega arith
level_code-le broken_l2 h = omega arith
level_code-le safe h = omega arith
level_code-le recovering h = omega arith

level_of-level_code : (l : BreakerLevel) → IsNamed l → level_of (level_code l) ≡ l
level_of-level_code (unnamed n) h = absurd h
level_of-level_code normal h = refl
level_of-level_code broken_l1 h = refl
level_of-level_code broken_l2 h = refl
level_of-level_code safe h = refl
level_of-level_code recovering h = refl

or_field :
    (k x : ℕ) {word sum : ℕ}
    → word ≡ sum
    → sum < 2 ^ k
    → x * 2 ^ k < 2 ^ 32
    → bit_or word (shl32 x k) ≡ sum + x * 2 ^ k
or_field k x {sum = sum} e h fits =
    let unwrapped : shl32 x k ≡ x * 2 ^ k = omega arith in
    rw (e, unwrapped) (bit_or-fields k sum x h)

fields_sum : State → ℕ
fields_sum s =
    level_code s.level
    + s.cooldown_remaining * 2 ^ 3
    + s.direct_timeout_consec * 2 ^ 19
    + s.rtc_timeout_consec * 2 ^ 21
    + s.high_watermark_consec * 2 ^ 23
    + s.low_watermark_consec * 2 ^ 25
    + s.healthy_window_count * 2 ^ 27
    + bit_of s.probe_success * 2 ^ 29

bit_of-le : (b : Bool) → bit_of b ≤ 1
bit_of-le true = omega arith
bit_of-le false = omega arith

pack-eq-fields_sum : {s : State} → Fits s → pack s ≡ fields_sum s
unfolding pack fields_sum
pack-eq-fields_sum {s} f =
    let l = level_code-le s.level f.named in
    let b = bit_of-le s.probe_success in
    or_field 29 _
      (or_field 27 _
        (or_field 25 _
          (or_field 23 _
            (or_field 21 _
              (or_field 19 _
                (or_field 3 _ {sum = level_code s.level} (omega arith) (omega arith) (omega arith))
                (omega arith) (omega arith))
              (omega arith) (omega arith))
            (omega arith) (omega arith))
          (omega arith) (omega arith))
        (omega arith) (omega arith))
      (omega arith) (omega arith)

-- `Unpack` by remainders.
unpack_fields :
    (w : ℕ)
    → unpack w ≡ record {
      level = level_of (w / 2 ^ 0 % 2 ^ 3);
      cooldown_remaining = w / 2 ^ 3 % 2 ^ 16;
      direct_timeout_consec = w / 2 ^ 19 % 2 ^ 2;
      rtc_timeout_consec = w / 2 ^ 21 % 2 ^ 2;
      high_watermark_consec = w / 2 ^ 23 % 2 ^ 2;
      low_watermark_consec = w / 2 ^ 25 % 2 ^ 2;
      healthy_window_count = w / 2 ^ 27 % 2 ^ 2;
      probe_success = not (w / 2 ^ 29 % 2 ^ 1 == 0);
    }
unfolding unpack
unpack_fields w = λ i. record {
  level = level_of (bit_and-mask 3 (w / 2 ^ 0) i);
  cooldown_remaining = bit_and-mask 16 (w / 2 ^ 3) i;
  direct_timeout_consec = bit_and-mask 2 (w / 2 ^ 19) i;
  rtc_timeout_consec = bit_and-mask 2 (w / 2 ^ 21) i;
  high_watermark_consec = bit_and-mask 2 (w / 2 ^ 23) i;
  low_watermark_consec = bit_and-mask 2 (w / 2 ^ 25) i;
  healthy_window_count = bit_and-mask 2 (w / 2 ^ 27) i;
  probe_success = not (bit_and-mask 1 (w / 2 ^ 29) i == 0);
}

State-ext :
    {s t : State}
    → s.level ≡ t.level
    → s.cooldown_remaining ≡ t.cooldown_remaining
    → s.direct_timeout_consec ≡ t.direct_timeout_consec
    → s.rtc_timeout_consec ≡ t.rtc_timeout_consec
    → s.high_watermark_consec ≡ t.high_watermark_consec
    → s.low_watermark_consec ≡ t.low_watermark_consec
    → s.healthy_window_count ≡ t.healthy_window_count
    → s.probe_success ≡ t.probe_success
    → s ≡ t
State-ext l c d r h w y p = λ i. record {
  level = l i;
  cooldown_remaining = c i;
  direct_timeout_consec = d i;
  rtc_timeout_consec = r i;
  high_watermark_consec = h i;
  low_watermark_consec = w i;
  healthy_window_count = y i;
  probe_success = p i;
}

nonzero-bit_of : (b : Bool) → not (bit_of b == 0) ≡ b
nonzero-bit_of true = refl
nonzero-bit_of false = refl

-- Unpacking a packed state gives the state back, when its fields fit their bits.
pub unpack-pack : {s : State} → Fits s → unpack (pack s) ≡ s
unfolding fields_sum
unpack-pack {s} f =
    let l = level_code-le s.level f.named in
    let b = bit_of-le s.probe_success in
    let code : fields_sum s / 2 ^ 0 % 2 ^ 3 ≡ level_code s.level = omega arith in
    let flag : fields_sum s / 2 ^ 29 % 2 ^ 1 ≡ bit_of s.probe_success = omega arith in
    rw (pack-eq-fields_sum f, unpack_fields)
      (State-ext (ap level_of code ∙ level_of-level_code s.level f.named) (omega arith)
        (omega arith) (omega arith) (omega arith) (omega arith) (omega arith)
        (ap (λ n. not (n == 0)) flag ∙ nonzero-bit_of s.probe_success))

-- Every transition keeps the fields within their bits, for a 16-bit `CooldownCycles`.
pub transition-Fits :
    (cycles : ℕ) (input : Input) {s : State}
    → cycles < 65536
    → Fits s
    → Fits (transition cycles input s)
unfolding transition
transition-Fits cycles input h f = ground arith

pub update-eq-pack :
    (step : State → State) (word : ℕ) → update step word ≡ pack (step (unpack word))
unfolding update
update-eq-pack step word = ground arith

-- The handlers on the word, in any order, are the transitions on the state.
unfoldable pub run : ℕ → State → List Input → State
run cycles s [] = s
run cycles s (input ∷ inputs) = run cycles (transition cycles input s) inputs

-- One handler call, then any sequence of them.
handle-pack :
    (cycles : ℕ) (input : Input) {s : State}
    → Fits s
    → handle cycles (pack s) input ≡ pack (transition cycles input s)
unfolding handle
handle-pack cycles input f = rw (update-eq-pack, unpack-pack f)

-- Any sequence of handler calls on a packed state, whose fields fit their bits, ends in the packed state that the transitions end
-- in: the 32-bit word hides nothing, for a 16-bit `CooldownCycles`.
pub handle_all-pack :
    (cycles : ℕ) (inputs : List Input) {s : State}
    → cycles < 65536
    → Fits s
    → handle_all cycles (pack s) inputs ≡ pack (run cycles s inputs)
unfolding handle_all run
handle_all-pack cycles [] h f = refl
handle_all-pack cycles (input ∷ inputs) h f =
    rw (handle-pack cycles input f)
      (handle_all-pack cycles inputs h (transition-Fits cycles input h f))

pub run-Fits :
    (cycles : ℕ) (inputs : List Input) {s : State}
    → cycles < 65536
    → Fits s
    → Fits (run cycles s inputs)
unfolding run
run-Fits cycles [] h f = f
run-Fits cycles (input ∷ inputs) h f = run-Fits cycles inputs h (transition-Fits cycles input h f)

pub fresh-Fits : Fits fresh
fresh-Fits = omega arith

-- What a query reads after any sequence of calls.
pub unpack-handle_all :
    (cycles : ℕ) (inputs : List Input) {s : State}
    → cycles < 65536
    → Fits s
    → unpack (handle_all cycles (pack s) inputs) ≡ run cycles s inputs
unpack-handle_all cycles inputs h f =
    rw (handle_all-pack cycles inputs h f) (unpack-pack (run-Fits cycles inputs h f))

pub level-handle_all :
    (cycles : ℕ) (inputs : List Input) {s : State}
    → cycles < 65536
    → Fits s
    → level (handle_all cycles (pack s) inputs) ≡ (run cycles s inputs).level
unfolding level
level-handle_all cycles inputs h f =
    ap (λ (t : State). t.level) (unpack-handle_all cycles inputs h f)
