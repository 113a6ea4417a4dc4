-- ===== src/Bus/Publish.antt =====
-- What a publish does to the queue of pending messages, by the message's priority.
use newosp.Base.{
  ℕ, zero, suc, ◌+◌, ◌-◌, ◌*◌, ◌^◌, ◌≤◌, ◌<◌, ◌≡◌, Bool, true, false, List, [], ◌∷◌, ◌++◌, Option,
  none, some, arith, refl, length, ltb, leb, if◌then◌else◌, ap, sym, ◌∙◌, set, drop, subst, pow-pos,
  if_intro, ltb→lt, length-drop,
}
use newosp.Bus.{
  Bus, MessageEnvelope, MessagePriority, low, medium, high, rank, sub_word, threshold_for_priority,
  msg_id_wrap_threshold,
}
use newosp.Bus.Ring.{
  Request, envelope_of, fill, find_victim, claim_and_fill, evict_at, try_evict_and_publish,
  recached, or_drop, drop_message, report_error, refused, publish_internal,
}
use newosp.Bus.Queue.{Window, Holds, claim_and_fill-Window}
use newosp.Bus.Evict.{first_lower, find_victim-eq, evict_at-Window}
use mathlib.Core.Option

abbrev displace :
    {A : Type 0}
    → MessageEnvelope A
    → List (MessageEnvelope A)
    → MessagePriority
    → Option ℕ
    → Bool × List (MessageEnvelope A)
displace e msgs high (some j) = (true, set msgs (suc j) e)
displace e msgs high none = (false, msgs)
displace e msgs medium o = (false, msgs)
displace e msgs low o = (false, msgs)

-- A message offered to a queue that admits below `limit`: taken at the end; or, for the highest priority, in
-- the place of the first message behind the oldest that has a lower one; or refused.
abbrev pub offer :
    {A : Type 0}
    → ℕ
    → MessageEnvelope A
    → List (MessageEnvelope A)
    → Bool × List (MessageEnvelope A)
offer limit e msgs =
    if ltb (length msgs) limit
    then (true, msgs ++ e ∷ [])
    else displace e msgs e.header.priority (first_lower (drop 1 msgs))

first_lower-lt :
    {A : Type 0} (l : List (MessageEnvelope A)) (j : ℕ) → first_lower l ≡ some j → j < length l
first_lower-lt [] j e = absurd cc
first_lower-lt (m ∷ l) zero e = omega arith
first_lower-lt (m ∷ l) (suc j) e =
    let rec =
      first_lower-lt l j (deeper (leb (rank high) (rank m.header.priority)) (first_lower l) e) in
    omega arith
  where
    deeper :
        (t : Bool) (o : Option ℕ)
        → (if t then Option.map suc o else some 0) ≡ some (suc j)
        → o ≡ some j
    deeper true none e = absurd cc
    deeper true (some i) e = cc
    deeper false o e = absurd cc

limit-le : (bits : ℕ) (p : MessagePriority) → threshold_for_priority bits p ≤ 2 ^ bits
limit-le bits low = omega arith
limit-le bits medium = omega arith
limit-le bits high = omega arith

module _ {A F : Type 0} (bits c : ℕ) where
  -- The call returned, and the bus holds, what the queue did.
  abbrev pub Agrees : Bool × Bus A F → Bool × List (MessageEnvelope A) → Type 0
  Agrees (ok, b) (ok', msgs) = (ok ≡ ok') × Holds bits c b msgs

  recached-Holds :
      (b : Bus A F) (msgs : List (MessageEnvelope A))
      → Holds bits c b msgs
      → Holds bits c (recached b) msgs
  unfolding recached
  recached-Holds b msgs h = record {
    window = record {
      upto = h.window.upto;
      fits = h.window.fits;
      pending = h.window.pending;
      free = h.window.free;
    };
    at = h.at;
    cached = omega (arith, h.at);
  }

  drop_message-Holds :
      (id : ℕ) (b : Bus A F) (msgs : List (MessageEnvelope A))
      → Holds bits c b msgs
      → Holds bits c (drop_message id b) msgs
  unfolding report_error
  drop_message-Holds id b msgs h = record {
    window = record {
      upto = h.window.upto;
      fits = h.window.fits;
      pending = h.window.pending;
      free = h.window.free;
    };
    at = h.at;
    cached = h.cached;
  }

  -- Below the limit, the message goes to the end.
  claim-Agrees :
      (id : ℕ) (b : Bus A F) (msgs : List (MessageEnvelope A)) (r : Request A)
      → c + 3 * 2 ^ bits < 2 ^ 32
      → length msgs < threshold_for_priority bits r.priority
      → Holds bits c b msgs
      → Agrees
          (claim_and_fill bits r id b)
          (offer (threshold_for_priority bits r.priority) (envelope_of r b.next_msg_id) msgs)
  claim-Agrees id b msgs r few lt h =
      let room : length msgs < 2 ^ bits = omega (arith, limit-le bits r.priority) in
      let (ok, w, at, cached) = claim_and_fill-Window bits c id b msgs r few room h.window in
      if_intro (Agrees (claim_and_fill bits r id b))
        (ltb (length msgs) (threshold_for_priority bits r.priority))
        (λ e. (ok, record { window = w; at = at ∙ h.at; cached = omega (arith, cached, h.cached) }))
        (λ e. absurd (ground arith))

  -- The slot of the message that the eviction picks, or none.
  evict-Agrees :
      (id : ℕ) (b : Bus A F) (msgs : List (MessageEnvelope A)) (r : Request A)
      → c + 3 * 2 ^ bits < 2 ^ 32
      → r.priority ≡ high
      → Holds bits c b msgs
      → (o : Option ℕ) → first_lower (drop 1 msgs) ≡ o
      → Agrees
          (or_drop id b (Option.map (evict_at bits r b) (Option.map (λ j. c + 1 + j) o)))
          (displace (envelope_of r b.next_msg_id) msgs high o)
  unfolding or_drop report_error evict_at fill
  evict-Agrees id b msgs r few top h none e = (refl, drop_message-Holds id b msgs h)
  evict-Agrees id b msgs r few top h (some j) e =
      let l = first_lower-lt (drop 1 msgs) j e in
      let w =
        evict_at-Window bits c b msgs few h.window r (suc j) top
          (omega (arith, length-drop 1 msgs)) in
      let e' : c + suc j ≡ c + 1 + j = omega arith in
      (
        refl,
        record {
          window =
              subst
                (λ x.
                  Window bits c (evict_at bits r b x)
                    (set msgs (suc j) (envelope_of r b.next_msg_id)))
                e' w;
          at = h.at;
          cached = h.cached;
        },
      )

  refused-Agrees :
      (id : ℕ) (b : Bus A F) (msgs : List (MessageEnvelope A)) (r : Request A)
      → c + 3 * 2 ^ bits < 2 ^ 32
      → Holds bits c b msgs
      → (p : MessagePriority) → r.priority ≡ p
      → Agrees
          (refused bits r id b p)
          (displace (envelope_of r b.next_msg_id) msgs p (first_lower (drop 1 msgs)))
  unfolding refused report_error try_evict_and_publish
  refused-Agrees id b msgs r few h low e = (refl, drop_message-Holds id b msgs h)
  refused-Agrees id b msgs r few h medium e = (refl, drop_message-Holds id b msgs h)
  refused-Agrees id b msgs r few h high e =
      let found =
        find_victim-eq bits c b msgs few h.window 1 (2 ^ bits - 1) (omega (arith, pow-pos bits)) in
      let agrees = evict-Agrees id b msgs r few e h (first_lower (drop 1 msgs)) refl in
      subst
        (λ o.
          Agrees (or_drop id b (Option.map (evict_at bits r b) o))
            (displace (envelope_of r b.next_msg_id) msgs high (first_lower (drop 1 msgs))))
        (sym found ∙ ap (λ x. find_victim bits b b.producer_pos x 1 (2 ^ bits - 1)) (sym h.at))
        agrees

  -- A full estimate leads to a look at the real position, and a full queue to the eviction or the drop.
  real-Agrees :
      (b : Bus A F) (msgs : List (MessageEnvelope A)) (r : Request A)
      → c + 3 * 2 ^ bits < 2 ^ 32
      → Holds bits c b msgs
      → let limit = threshold_for_priority bits r.priority in
        Agrees
          (if ltb (sub_word b.producer_pos b.consumer_pos) limit
            then claim_and_fill bits r b.next_msg_id (recached b)
            else refused bits r b.next_msg_id (recached b) r.priority)
          (offer limit (envelope_of r b.next_msg_id) msgs)
  unfolding recached
  real-Agrees b msgs r few h =
      let limit = threshold_for_priority bits r.priority in
      let o = offer limit (envelope_of r b.next_msg_id) msgs in
      let again = recached-Holds b msgs h in
      let w = h.window in
      let depth : sub_word b.producer_pos b.consumer_pos ≡ length msgs =
        omega (arith, w.upto, w.fits, h.at) in
      if_intro (λ (x : Bool × Bus A F). Agrees x o)
        (ltb (sub_word b.producer_pos b.consumer_pos) limit)
        (λ e. claim-Agrees b.next_msg_id (recached b) msgs r few (ground arith) again)
        (λ e.
          if_intro (λ x. Agrees (refused bits r b.next_msg_id (recached b) r.priority) x)
            (ltb (length msgs) limit) (λ e'. absurd (ground arith))
            (λ e'. refused-Agrees b.next_msg_id (recached b) msgs r few again r.priority refl))

  -- A publish by a lone thread, on a bus that holds the pending messages `msgs` with its positions in range and
  -- ids left, is an offer to a queue with the limit of the message's priority: below the limit it is appended;
  -- at the limit a message of the highest priority takes the place of the first one of lower priority behind
  -- the oldest, if there is one; any other is refused. The call says whether the message was taken.
  pub publish_internal_refines :
      (b : Bus A F) (msgs : List (MessageEnvelope A)) (r : Request A)
      → c + 3 * 2 ^ bits < 2 ^ 32
      → b.next_msg_id < msg_id_wrap_threshold
      → Holds bits c b msgs
      → Agrees
          (publish_internal bits r b)
          (offer (threshold_for_priority bits r.priority) (envelope_of r b.next_msg_id) msgs)
  unfolding publish_internal
  publish_internal_refines b msgs r few ids h =
      let limit = threshold_for_priority bits r.priority in
      let o = offer limit (envelope_of r b.next_msg_id) msgs in
      let w = h.window in
      let real = real-Agrees b msgs r few h in
      let est : length msgs ≤ sub_word b.producer_pos b.cached_consumer_pos =
        omega (arith, w.upto, w.fits, h.cached) in
      if_intro (λ (x : Bool × Bus A F). Agrees x o) (leb msg_id_wrap_threshold b.next_msg_id)
        (λ e. absurd (ground arith))
        (λ e.
          if_intro (λ (x : Bool × Bus A F). Agrees x o)
            (ltb (sub_word b.producer_pos b.cached_consumer_pos) limit)
            (λ e'.
              claim-Agrees b.next_msg_id b msgs r few
                (omega
                  (arith, ltb→lt (sub_word b.producer_pos b.cached_consumer_pos) limit e', est))
                h)
            (λ e'. real))
