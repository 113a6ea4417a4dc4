-- ===== src/MemPool/Listing.antt =====
-- The free list after a move of a thread.
use native.Mathlib.Nat.{mod-eq_of_lt}
use newosp.Base.{
  ℕ, ◌+◌, ◌%◌, ◌^◌, ◌<◌, ◌≡◌, ◌≢◌, refl, true, some, List, [], ◌∷◌, arith, ap, sym, ◌∙◌, subst, All,
}
use newosp.MemPool.{update, pack_head, head_index, head_tag, free_index_empty}
use newosp.MemPool.Threads.{
  Pc, read, linked, Owner, listed, client, thread, Shared, Move, tail_of, load_head, exhausted,
  load_index, pop_wins, pop_fails, count_up, mark, client_writes, call_free, load_for_free,
  store_index, push_wins, push_fails, count_down, unmark,
}
use newosp.MemPool.Invariant.{
  IsSound, IsFresh, Locals, holds, Chain, Distinct, head_index-mod, head_index-pack_head,
  head_tag-pack_head,
}

Chain-update :
    (words : ℕ → ℕ) (x w i : ℕ) (l : List ℕ)
    → All (λ y. y ≢ x) l
    → Chain words i l
    → Chain (update words x w) i l
Chain-update words x w i [] a c = c
Chain-update words x w i (y ∷ l) a c =
    let same : update words x w y ≡ words y = ground (arith, a.0) in
    (c.0, c.1, rw same (Chain-update words x w (words y % 65536) l a.1 c.2))

-- A block that someone else has is not on the list.
unlisted :
    (owner : ℕ → Owner) (n x : ℕ) (l : List ℕ)
    → All (λ y. (owner y ≡ listed) × (y < n)) l
    → owner x ≢ listed
    → All (λ y. y ≢ x) l
unlisted owner n x [] a ne = tt
unlisted owner n x (y ∷ l) a ne =
    ((λ e. ne (subst (λ z. owner z ≡ listed) e a.0.0)), unlisted owner n x l a.1 ne)

All-owned_update :
    (owner : ℕ → Owner) (n x : ℕ) (o : Owner) (l : List ℕ)
    → All (λ y. y ≢ x) l
    → All (λ y. (owner y ≡ listed) × (y < n)) l
    → All (λ y. (update owner x o y ≡ listed) × (y < n)) l
All-owned_update owner n x o [] d a = tt
All-owned_update owner n x o (y ∷ l) d a =
    (ground (arith, d.0, a.0), All-owned_update owner n x o l d.1 a.1)

module _ {n : ℕ} {m : Shared} {pcs : ℕ → Pc} (sound : IsSound n m pcs) (i : ℕ) where
  open sound use {few, tagged, chained, apart, owned, held, lent, locals}

  -- An exchange that succeeds in time finds the head as it was loaded.
  caught_up :
      (head since : ℕ)
      → IsFresh m head since
      → m.pool.free_head ≡ head
      → m.changes < since + 2 ^ 16
      → since ≡ m.changes
  caught_up head since f e near = omega (arith, tagged, ap head_tag e, f.0, f.1)

  pub taken-ne-listed : (x : ℕ) → holds (pcs i) ≡ some x → m.owner x ≢ listed
  taken-ne-listed x h e = cc ((held i x h).0)

  pub lent-ne-listed : (x : ℕ) → m.clients x ≡ true → m.owner x ≢ listed
  lent-ne-listed x h e = cc ((lent x h).0)

  -- The list after a move.
  pub record Listing (m' : Shared) : Type 0 where
    pub tagged' : head_tag m'.pool.free_head ≡ m'.changes % 65536
    pub chained' : Chain m'.pool.words (head_index m'.pool.free_head) m'.free
    pub apart' : Distinct m'.free
    pub owned' : All (λ x. (m'.owner x ≡ listed) × (x < n)) m'.free

  pop-Listing :
      (head since next : ℕ)
      → Locals m (read head since next)
      → m.pool.free_head ≡ head
      → m.changes < since + 2 ^ 16
      → (l : List ℕ) → m.free ≡ l
      → Listing (record m {
        pool = record m.pool { free_head = pack_head next (head_tag head + 1) };
        changes = m.changes + 1;
        free = tail_of m.free;
        owner = update m.owner (head_index head) (thread i);
      })
  pop-Listing head since next (f, ne, link) e near [] q = absurd (
      ne (
        ap head_index (sym e) ∙ subst (Chain m.pool.words (head_index m.pool.free_head)) q chained))
  pop-Listing head since next (f, ne, link) e near (x ∷ l) q =
      let c : Chain m.pool.words (head_index m.pool.free_head) (x ∷ l) =
        subst (λ z. Chain m.pool.words (head_index m.pool.free_head) z) q chained in
      let d : Distinct (x ∷ l) = subst (λ z. Distinct z) q apart in
      let o : All (λ y. (m.owner y ≡ listed) × (y < n)) (x ∷ l) =
        subst (λ z. All (λ y. (m.owner y ≡ listed) × (y < n)) z) q owned in
      let at_x : head_index head ≡ x = ap head_index (sym e) ∙ c.0 in
      let rest : tail_of m.free ≡ l = ap tail_of q in
      let found : next ≡ m.pool.words x =
        link (caught_up head since f e near) ∙ ap m.pool.words at_x in
      let index : m.pool.words x % 65536 ≡ head_index (pack_head next (head_tag head + 1)) =
        ap (λ w. w % 65536) (sym found) ∙ sym (head_index-pack_head next (head_tag head + 1)) in
      record {
        tagged' = omega (arith, head_tag-pack_head next (head_tag head + 1), tagged, ap head_tag e);
        chained' =
            subst (λ k. Chain m.pool.words k (tail_of m.free)) index
              (subst (λ z. Chain m.pool.words (m.pool.words x % 65536) z) (sym rest) c.2);
        apart' = subst (λ z. Distinct z) (sym rest) d.1;
        owned' =
            subst
              (λ z. All (λ y. (update m.owner (head_index head) (thread i) y ≡ listed) × (y < n)) z)
              (sym rest)
              (All-owned_update m.owner n (head_index head) (thread i) l
                (subst (λ z. All (λ y. y ≢ z) l) (sym at_x) d.0) o.1);
      }

  push-Listing :
      (x head since : ℕ)
      → Locals m (linked x head since)
      → pcs i ≡ linked x head since
      → m.pool.free_head ≡ head
      → m.changes < since + 2 ^ 16
      → Listing (record m {
        pool = record m.pool { free_head = pack_head x (head_tag head + 1) };
        changes = m.changes + 1;
        free = x ∷ m.free;
        owner = update m.owner x listed;
      })
  push-Listing x head since (f, link) at e near =
      let mine = held i x (ap holds at) in
      let away = unlisted m.owner n x m.free owned (taken-ne-listed x (ap holds at)) in
      let low : head_index head < 65536 = omega (arith, head_index-mod head) in
      let next : m.pool.words x % 65536 ≡ head_index m.pool.free_head =
        ap (λ w. w % 65536) link ∙ mod-eq_of_lt low ∙ ap head_index (sym e) in
      record {
        tagged' = omega (arith, head_tag-pack_head x (head_tag head + 1), tagged, ap head_tag e);
        chained' = (
          omega (arith, head_index-pack_head x (head_tag head + 1), mine.1, few),
          omega (arith, mine.1, few),
          subst (λ k. Chain m.pool.words k m.free) (sym next) chained,
        );
        apart' = (away, apart);
        owned' = ((ground arith, mine.1), All-owned_update m.owner n x listed m.free away owned);
      }

  -- Any other write of a word: into a block that is not on the list.
  write-Listing :
      (x w : ℕ)
      → m.owner x ≢ listed
      → Listing (record m { pool = record m.pool { words = update m.pool.words x w } })
  write-Listing x w ne = record {
    tagged' = tagged;
    chained' =
        Chain-update m.pool.words x w (head_index m.pool.free_head) m.free
          (unlisted m.owner n x m.free owned ne) chained;
    apart' = apart;
    owned' = owned;
  }

  -- A block that is not on the list changes hands.
  handed :
      (x : ℕ) (o : Owner)
      → m.owner x ≢ listed
      → All (λ y. (update m.owner x o y ≡ listed) × (y < n)) m.free
  handed x o ne = All-owned_update m.owner n x o m.free (unlisted m.owner n x m.free owned ne) owned

  same-Listing : Listing m
  same-Listing = record { tagged' = tagged; chained' = chained; apart' = apart; owned' = owned }

  pub Move-Listing : {p p' : Pc} {m' : Shared} → Move i m p m' p' → pcs i ≡ p → Listing m'
  Move-Listing (pop_wins {head} {since} {next} e near) at =
      pop-Listing head since next (subst (λ p. Locals m p) at (locals i)) e near m.free refl
  Move-Listing (push_wins {idx} {head} {since} e near) at =
      push-Listing idx head since (subst (λ p. Locals m p) at (locals i)) at e near
  Move-Listing (store_index {idx} {head} {since}) at =
      write-Listing idx (head_index head) (taken-ne-listed idx (ap holds at))
  Move-Listing (client_writes idx w lent_it) at = write-Listing idx w (lent-ne-listed idx lent_it)
  Move-Listing (mark {idx}) at = record {
    tagged' = tagged;
    chained' = chained;
    apart' = apart;
    owned' = handed idx client (taken-ne-listed idx (ap holds at));
  }
  Move-Listing (call_free {idx} lent_it) at = record {
    tagged' = tagged;
    chained' = chained;
    apart' = apart;
    owned' = handed idx (thread i) (lent-ne-listed idx lent_it);
  }
  Move-Listing load_head at = same-Listing
  Move-Listing (exhausted e) at = same-Listing
  Move-Listing (load_index e) at = same-Listing
  Move-Listing pop_fails at = same-Listing
  Move-Listing count_up at = record {
    tagged' = tagged;
    chained' = chained;
    apart' = apart;
    owned' = owned;
  }
  Move-Listing load_for_free at = same-Listing
  Move-Listing push_fails at = same-Listing
  Move-Listing count_down at = record {
    tagged' = tagged;
    chained' = chained;
    apart' = apart;
    owned' = owned;
  }
  Move-Listing unmark at = record {
    tagged' = tagged;
    chained' = chained;
    apart' = apart;
    owned' = owned;
  }

  pub head-listed :
      (l : List ℕ)
      → m.free ≡ l
      → head_index m.pool.free_head ≢ free_index_empty
      → (m.owner (head_index m.pool.free_head) ≡ listed) × (head_index m.pool.free_head < n)
  head-listed [] q ne =
      absurd (ne (subst (λ z. Chain m.pool.words (head_index m.pool.free_head) z) q chained))
  head-listed (x ∷ l) q ne =
      let c : Chain m.pool.words (head_index m.pool.free_head) (x ∷ l) =
        subst (λ z. Chain m.pool.words (head_index m.pool.free_head) z) q chained in
      let o : All (λ y. (m.owner y ≡ listed) × (y < n)) (x ∷ l) =
        subst (λ z. All (λ y. (m.owner y ≡ listed) × (y < n)) z) q owned in
      subst (λ z. (m.owner z ≡ listed) × (z < n)) (sym c.0) o.0

  -- The block that an exchange in time takes is on the list.
  pub popped :
      (head since next : ℕ)
      → pcs i ≡ read head since next
      → m.pool.free_head ≡ head
      → (m.owner (head_index head) ≡ listed) × (head_index head < n)
  popped head since next at e =
      let l : Locals m (read head since next) = subst (λ p. Locals m p) at (locals i) in
      subst (λ h. (m.owner (head_index h) ≡ listed) × (head_index h < n)) e
        (head-listed m.free refl (λ z. l.1 (ap head_index (sym e) ∙ z)))
