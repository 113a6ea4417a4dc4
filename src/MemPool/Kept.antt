-- ===== src/MemPool/Kept.antt =====
-- What threads know of the memory after a move of one of them.
use newosp.Base.{ℕ_discrete, ℕ, ◌≤◌, ◌≡◌, ◌≢◌, refl, arith, ap, sym, ◌∙◌, subst}
use newosp.MemPool.{update, head_index, free_index_empty}
use newosp.MemPool.Threads.{
  Pc, idle, loaded, read, won, counted, freeing, linking, linked, unlinked, uncounted, listed,
  thread, Shared, Move, load_head, exhausted, load_index, pop_wins, pop_fails, count_up, mark,
  client_writes, call_free, load_for_free, store_index, push_wins, push_fails, count_down, unmark,
}
use newosp.MemPool.Invariant.{IsSound, IsFresh, Locals, holds}
use newosp.MemPool.Listing.{taken-ne-listed, lent-ne-listed, head-listed}

module _ {n : ℕ} {m : Shared} {pcs : ℕ → Pc} (sound : IsSound n m pcs) (i : ℕ) where
  open sound use {few, tagged, chained, apart, owned, held, lent, locals}

  -- What a move of another thread leaves to the thread `j`.
  record Kept (m' : Shared) (j : ℕ) : Type 0 where
    grows : m.changes ≤ m'.changes
    still :
        m'.changes ≡ m.changes
        → (m'.pool.free_head ≡ m.pool.free_head)
          × (head_index m.pool.free_head ≢ free_index_empty
              → m'.pool.words (head_index m.pool.free_head)
                ≡ m.pool.words (head_index m.pool.free_head))
    mine : (x : ℕ) → m.owner x ≡ thread j → m'.pool.words x ≡ m.pool.words x

  write-Kept :
      (j x w : ℕ)
      → m.owner x ≢ listed
      → m.owner x ≢ thread j
      → Kept (record m { pool = record m.pool { words = update m.pool.words x w } }) j
  write-Kept j x w ne other = record {
    grows = omega arith;
    still = λ e. (refl, λ full. ground (arith, ne, head-listed sound i m.free refl full));
    mine = λ y e. ground (arith, other);
  }

  Move-Kept : {p p' : Pc} {m' : Shared} → Move i m p m' p' → pcs i ≡ p → (j : ℕ) → j ≢ i → Kept m' j
  Move-Kept (pop_wins e near) at j ne = record {
    grows = omega arith;
    still = λ e. absurd (omega arith);
    mine = λ x o. refl;
  }
  Move-Kept (push_wins e near) at j ne = record {
    grows = omega arith;
    still = λ e. absurd (omega arith);
    mine = λ x o. refl;
  }
  Move-Kept (store_index {idx} {head} {since}) at j ne =
      write-Kept j idx (head_index head) (taken-ne-listed sound i idx (ap holds at))
        (λ o. ground (arith, held i idx (ap holds at)))
  Move-Kept (client_writes idx w lent_it) at j ne =
      write-Kept j idx w (lent-ne-listed sound i idx lent_it)
        (λ o. ground (arith, lent idx lent_it))
  Move-Kept mv at j ne = record {
    grows = omega arith;
    still = λ e. (refl, λ f. refl);
    mine = λ x o. refl;
  }

  IsFresh-Kept :
      (m' : Shared) (j head since : ℕ) → Kept m' j → IsFresh m head since → IsFresh m' head since
  IsFresh-Kept m' j head since k (old, tag, same) = (
    omega (arith, k.grows),
    tag,
    λ e.
        let still : m'.changes ≡ m.changes = omega (arith, k.grows) in
        same (omega (arith, k.grows)) ∙ sym ((k.still still).0),
  )

  IsFresh-now : IsFresh m m.pool.free_head m.changes
  IsFresh-now = (omega arith, tagged, λ e. refl)

  Locals-Kept : (m' : Shared) (j : ℕ) (q : Pc) → Kept m' j → pcs j ≡ q → Locals m q → Locals m' q
  Locals-Kept m' j idle k at l = tt
  Locals-Kept m' j (loaded head since) k at l = IsFresh-Kept m' j head since k l
  Locals-Kept m' j (read head since next) k at l = (
    IsFresh-Kept m' j head since k l.0,
    l.1,
    λ e.
        let still : m'.changes ≡ m.changes = omega (arith, k.grows, l.0.0) in
        let now : since ≡ m.changes = omega (arith, k.grows, l.0.0) in
        let same = l.0.2 now in
        let full : head_index m.pool.free_head ≢ free_index_empty =
          λ z. l.1 (ap head_index same ∙ z) in
        l.2 now
        ∙ ap m.pool.words (ap head_index same)
        ∙ sym ((k.still still).1 full)
        ∙ ap m'.pool.words (ap head_index (sym same)),
  )
  Locals-Kept m' j (won x) k at l = tt
  Locals-Kept m' j (counted x) k at l = tt
  Locals-Kept m' j (freeing x) k at l = tt
  Locals-Kept m' j (linking x head since) k at l = IsFresh-Kept m' j head since k l
  Locals-Kept m' j (linked x head since) k at l =
      (IsFresh-Kept m' j head since k l.0, k.mine x (held j x (ap holds at)).0 ∙ l.1)
  Locals-Kept m' j (unlinked x) k at l = tt
  Locals-Kept m' j (uncounted x) k at l = tt

  -- The locals of the thread that moves.
  own-Locals : {p p' : Pc} {m' : Shared} → Move i m p m' p' → pcs i ≡ p → Locals m p → Locals m' p'
  own-Locals load_head at l = IsFresh-now
  own-Locals (exhausted e) at l = tt
  own-Locals (load_index ne) at l = (l, ne, λ e. refl)
  own-Locals (pop_wins e near) at l = tt
  own-Locals pop_fails at l = IsFresh-now
  own-Locals count_up at l = tt
  own-Locals mark at l = tt
  own-Locals (client_writes idx w lent_it) at l = tt
  own-Locals (call_free lent_it) at l = tt
  own-Locals load_for_free at l = IsFresh-now
  own-Locals store_index at l = (l, ground arith)
  own-Locals (push_wins e near) at l = tt
  own-Locals push_fails at l = IsFresh-now
  own-Locals count_down at l = tt
  own-Locals unmark at l = tt

  pub Move-Locals :
      {p p' : Pc} {m' : Shared}
      → Move i m p m' p'
      → pcs i ≡ p
      → (j : ℕ) → Locals m' (update pcs i p' j)
  Move-Locals {p} {p'} {m'} mv at j = elim (ℕ_discrete i j) [
    | yes e ↦
        let here : update pcs i p' j ≡ p' = ground arith in
        subst (λ q. Locals m' q) (sym here)
          (own-Locals mv at (subst (λ q. Locals m q) at (locals i)))
    | no ne ↦
        let there : update pcs i p' j ≡ pcs j = ground arith in
        subst (λ q. Locals m' q) (sym there)
          (Locals-Kept m' j (pcs j) (Move-Kept mv at j (λ e. ne (sym e))) refl (locals j))
  ]
