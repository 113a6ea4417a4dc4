-- ===== src/SpscRingbuffer/Client.antt =====
-- Any sequence of calls on the ring, against the same calls on the bounded queue.
use newosp.Base.{ℕ, ◌^◌, ◌≡◌, refl, ap, ◌∙◌, List, [], ◌∷◌, Option, none, some, Bool}
use newosp.SpscRingbuffer.{Ring, push, pop, peek, discard, push_batch, pop_batch, consumer_clear}
use newosp.SpscRingbuffer.Contents.{contents}
use newosp.SpscRingbuffer.Fifo.{
  Call, Reply, pushes, pushes_batch, pops, peeks, clears, pops_batch, discards, accepted, counted,
  element, elements,
}
use newosp.SpscRingbuffer.Refine.{
  IsValid, IsWide, push_refines, push-IsValid, pop_refines, pop-IsValid, peek_refines,
  discard_refines, discard-IsValid, clear_refines, clear-IsValid,
}
use newosp.SpscRingbuffer.PushBatch.{push_batch_refines}
use newosp.SpscRingbuffer.PopBatch.{pop_batch_refines}
use newosp.SpscRingbuffer.Fifo

module _ {ℓ} {A : Type ℓ} (blank : A) (width bits : ℕ) (trivial : Bool) where
  -- One call of a client; `none` would be a batch loop that does not end.
  unfoldable pub call : Ring A → Call A → Option (Reply A × Ring A)
  call r (pushes x) = let (done, r') = push width bits r x in some (accepted done, r')
  call r (pushes_batch xs) = elim (push_batch width bits trivial r xs) [
    | none ↦ none
    | some (n, r') ↦ some (counted n, r')
  ]
  call r pops = let (out, r') = pop blank width bits r in some (element out, r')
  call r peeks = some (element (peek blank width bits r), r)
  call r clears = some (counted 0, consumer_clear width bits r)
  call r (pops_batch n) = elim (pop_batch blank width bits trivial r n) [
    | none ↦ none
    | some (out, r') ↦ some (elements out, r')
  ]
  call r (discards n) = let (count, r') = discard width bits n r in some (counted count, r')

  abbrev consing : Reply A → Option (List (Reply A)) → Option (List (Reply A))
  consing reply none = none
  consing reply (some replies) = some (reply ∷ replies)

  unfoldable pub run : Ring A → List (Call A) → Option (List (Reply A))
  run r [] = some []
  run r (c ∷ cs) = elim (call r c) [ none ↦ none | some (reply, r') ↦ consing reply (run r' cs) ]

  -- A call that returns, from a valid ring to a valid ring, as the queue does.
  record Served (r : Ring A) (c : Call A) : Type ℓ where
    reply : Reply A
    ring : Ring A
    returned : call r c ≡ some (reply, ring)
    valid : IsValid width bits ring
    as_queue :
        (reply, contents blank width bits ring)
        ≡ Fifo.call (2 ^ bits) (contents blank width bits r) c

  call-Served : IsWide width bits → (r : Ring A) (c : Call A) → IsValid width bits r → Served r c
  unfolding call
  call-Served wide r (pushes x) v = record {
    reply = _;
    ring = _;
    returned = refl;
    valid = push-IsValid width bits wide r x v;
    as_queue = push_refines width bits wide blank r x v;
  }
  call-Served wide r (pushes_batch xs) v =
      let (n, r', e, v', q) = push_batch_refines width bits wide blank trivial r xs v in
      record { reply = counted n; ring = r'; returned = rw (e, call); valid = v'; as_queue = q }
  call-Served wide r pops v = record {
    reply = _;
    ring = _;
    returned = refl;
    valid = pop-IsValid width bits wide blank r v;
    as_queue = pop_refines width bits wide blank r v;
  }
  call-Served wide r peeks v = record {
    reply = _;
    ring = _;
    returned = refl;
    valid = v;
    as_queue = peek_refines width bits wide blank r v;
  }
  call-Served wide r clears v = record {
    reply = _;
    ring = _;
    returned = refl;
    valid = clear-IsValid width bits wide blank r v;
    as_queue = clear_refines width bits wide blank r v;
  }
  call-Served wide r (pops_batch n) v =
      let (out, r', e, v', q) = pop_batch_refines width bits wide blank trivial r n v in
      record { reply = elements out; ring = r'; returned = rw (e, call); valid = v'; as_queue = q }
  call-Served wide r (discards n) v = record {
    reply = _;
    ring = _;
    returned = refl;
    valid = discard-IsValid width bits wide blank n r v;
    as_queue = discard_refines width bits wide blank n r v;
  }

  -- Every sequence of calls on a valid ring returns, and no client can tell it from the bounded queue
  -- of the elements that the ring holds: single and batch pushes and pops, peeks, discards and the
  -- consumer's clear, with either way of copying, whatever the indices have wrapped. `IndexT` has 32
  -- bits or more, and the capacity is at most a quarter of what it counts.
  pub run_refines :
      (r : Ring A) (calls : List (Call A))
      → IsWide width bits
      → IsValid width bits r
      → run r calls ≡ some (Fifo.run (2 ^ bits) (contents blank width bits r) calls)
  unfolding run Fifo.run
  run_refines r [] wide v = refl
  run_refines r (c ∷ cs) wide v =
      let s = call-Served wide r c v in
      rw (s.returned, run)
        (ap (consing s.reply) (run_refines s.ring cs wide s.valid)
          ∙ ap (λ (p : Reply A × List A). some (p.0 ∷ Fifo.run (2 ^ bits) p.1 cs)) s.as_queue)
