-- ===== src/MemPool/Moves.antt =====
-- Each move of a thread keeps the invariant of the pool.
use newosp.Base.{ℕ, ◌<◌, ◌≡◌, refl, true, some, arith}
use newosp.MemPool.{update}
use newosp.MemPool.Threads.{
  Pc, client, thread, Shared, Move, load_head, pop_wins, mark, call_free, push_wins,
}
use newosp.MemPool.Invariant.{IsSound, holds}
use newosp.MemPool.Listing.{popped, Move-Listing}
use newosp.MemPool.Kept.{Move-Locals}

module _ {n : ℕ} {m : Shared} {pcs : ℕ → Pc} (sound : IsSound n m pcs) (i : ℕ) where
  open sound use {few, tagged, chained, apart, owned, held, lent, locals}

  -- What the moving thread has after the move it had before, or took from the list or the client.
  Move-held :
      {p p' : Pc} {m' : Shared}
      → Move i m p m' p'
      → pcs i ≡ p
      → (j x : ℕ) → holds (update pcs i p' j) ≡ some x
      → (m'.owner x ≡ thread j) × (x < n)
  Move-held load_head at j x e = ground (arith, held j x)
  Move-held (pop_wins {head} {since} {next} q near) at j x e =
      ground (arith, held j x, popped sound i head since next at q)
  Move-held (push_wins {idx} q near) at j x e = ground (arith, held j x, held i idx)
  Move-held (mark {idx}) at j x e = ground (arith, held j x, held i idx)
  Move-held (call_free {idx} lent_it) at j x e = ground (arith, held j x, lent idx)
  Move-held mv at j x e = ground (arith, held j x)

  Move-lent :
      {p p' : Pc} {m' : Shared}
      → Move i m p m' p'
      → pcs i ≡ p
      → (x : ℕ) → m'.clients x ≡ true
      → (m'.owner x ≡ client) × (x < n)
  Move-lent load_head at x e = lent x e
  Move-lent (pop_wins {head} {since} {next} q near) at x e =
      ground (arith, lent x, popped sound i head since next at q)
  Move-lent (push_wins {idx} q near) at x e = ground (arith, lent x, held i idx)
  Move-lent (mark {idx}) at x e = ground (arith, lent x, held i idx)
  Move-lent (call_free {idx} lent_it) at x e = ground (arith, lent x, lent idx)
  Move-lent mv at x e = lent x e

  pub Move-IsSound :
      {p' : Pc} {m' : Shared} → Move i m (pcs i) m' p' → IsSound n m' (update pcs i p')
  Move-IsSound mv =
      let l = Move-Listing sound i mv refl in
      record {
        few = few;
        tagged = l.tagged';
        chained = l.chained';
        apart = l.apart';
        owned = l.owned';
        held = Move-held mv refl;
        lent = Move-lent mv refl;
        locals = Move-Locals sound i mv refl;
      }
