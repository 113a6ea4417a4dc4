-- ===== src/MemPool/Safety.antt =====
-- No two owners ever have one block, whatever the threads do.
use native.Mathlib.Nat.{
  div-add-mod, mul_comm, mul-lt-mul_of_pos_right, mul-mod_left, mod-eq_of_lt, lt_of_mul-lt-mul_left,
}
use newosp.Base.{
  ℕ, zero, suc, ◌+◌, ◌-◌, ◌%◌, ◌/◌, ◌^◌, ◌≤◌, ◌<◌, ◌≡◌, ◌≢◌, refl, true, false, some, arith, sym,
  ◌==◌, subst, All, ◌↔◌,
}
use newosp.MemPool.{
  head_tag, pack_head, Pool, head_index, free_index_empty, new_pool, allocate, free_block,
  owns_pointer, block_ptr, ptr_to_index,
}
use newosp.MemPool.Threads.{
  Owner, listed, System, Step, pick, Reach, start, later, initial, indices,
}
use newosp.MemPool.Invariant.{
  IsSound, Chain, Distinct, holds, head_index-mod, head_index-pack_head, head_tag-pack_head,
}
use newosp.MemPool.Moves.{Move-IsSound}

-- The words of a new pool link the indices from `i` on.
new-Chain :
    (n i k : ℕ)
    → n ≤ free_index_empty
    → i + k ≡ n
    → 0 < k
    → Chain (new_pool n).words i (indices i k)
new-Chain n i zero few e pos = absurd (omega arith)
new-Chain n i (suc zero) few e pos = (refl, omega arith, ground arith)
new-Chain n i (suc (suc k)) few e pos =
    let next : (new_pool n).words i % 65536 ≡ i + 1 =
      (let w : (i + 1 == n) ≡ false = ground arith in rw w (mod-eq_of_lt (omega arith))) in
    (
      refl,
      omega arith,
      subst (λ j. Chain (new_pool n).words j (indices (i + 1) (suc k))) (sym next)
          (new-Chain n (i + 1) (suc k) few (omega arith) (omega arith)),
    )

indices-apart : (k i x : ℕ) → x < i → All (λ y. y ≢ x) (indices i k)
indices-apart zero i x lt = tt
indices-apart (suc k) i x lt = ((λ e. omega arith), indices-apart k (i + 1) x (omega arith))

indices-Distinct : (k i : ℕ) → Distinct (indices i k)
indices-Distinct zero i = tt
indices-Distinct (suc k) i = (indices-apart k (i + 1) i (omega arith), indices-Distinct k (i + 1))

indices-below :
    (k i n : ℕ) → i + k ≤ n → All (λ x. (◌≡◌ {A = Owner} listed listed) × (x < n)) (indices i k)
indices-below zero i n h = tt
indices-below (suc k) i n h = ((refl, omega arith), indices-below k (i + 1) n (omega arith))

initial-IsSound :
    (n : ℕ) → 0 < n → n ≤ free_index_empty → IsSound n (initial n).shared (initial n).pcs
initial-IsSound n pos few = record {
  few = few;
  tagged = head_tag-pack_head 0 0;
  chained =
      subst (λ j. Chain (new_pool n).words j (indices 0 n)) (sym (head_index-pack_head 0 0))
        (new-Chain n 0 n few (omega arith) pos);
  apart = indices-Distinct n 0;
  owned = indices-below n 0 n (omega arith);
  held = λ i x e. absurd (ground arith);
  lent = λ x e. absurd (ground arith);
  locals = λ i. tt;
}

Step-IsSound :
    {n : ℕ} {s t : System} → Step s t → IsSound n s.shared s.pcs → IsSound n t.shared t.pcs
Step-IsSound (pick i mv) sound = Move-IsSound sound i mv

pub Reach-IsSound :
    {n : ℕ} {s : System} → 0 < n → n ≤ free_index_empty → Reach n s → IsSound n s.shared s.pcs
Reach-IsSound {n} pos few start = initial-IsSound n pos few
Reach-IsSound pos few (later r st) = Step-IsSound st (Reach-IsSound pos few r)

-- Whatever any number of threads have done to a pool of 1 to 65535 blocks, in any order of their atomic
-- accesses: two threads in Allocate or Free never have the same block, and the client does not have a
-- block that a thread has. An exchange comes within 65535 changes of the head after the load, and Free
-- is called with a block that Allocate returned and that was not freed since.
pub no_block_twice :
    {n : ℕ} {s : System}
    → 0 < n
    → n ≤ free_index_empty
    → Reach n s
    → ((i j x : ℕ) → holds (s.pcs i) ≡ some x → holds (s.pcs j) ≡ some x → i ≡ j)
      × ((i x : ℕ) → holds (s.pcs i) ≡ some x → (s.shared.clients x ≡ false) × (x < n))
no_block_twice {n} {s} pos few r =
    let sound = Reach-IsSound pos few r in
    (
      λ i j x a b. ground (arith, sound.held i x, sound.held j x),
      λ i x a. ground (arith, sound.held i x, sound.lent x),
    )

-- An address is owned by the pool exactly if it is that of one of its blocks, and PtrToIndex then gives
-- that block.
pub owns_pointer_iff :
    (base stride n addr : ℕ)
    → 0 < stride
    → (owns_pointer base stride n addr ≡ true) ↔ (
        (idx : ℕ) × (idx < n)
        × (addr ≡ block_ptr base stride idx)
        × (ptr_to_index base stride addr ≡ idx))
unfolding owns_pointer ptr_to_index
owns_pointer_iff base stride n addr pos = (
  λ e. (
    (addr - base) / stride,
    ground (
      arith,
      div-add-mod (addr - base) stride,
      lt_of_mul-lt-mul_left stride {m = (addr - base) / stride} {n = n},
    ),
    ground (arith, div-add-mod (addr - base) stride, mul_comm stride ((addr - base) / stride)),
    refl,
  ),
  λ p.
      let inside = mul-lt-mul_of_pos_right p.1 pos in
      ground (arith, p.2, inside, mul-mod_left p.0 stride, mul_comm stride n),
)

-- A block that a lone thread frees is the next that it allocates, with the memory's other words, the
-- counter and the flags as they were before, if the block is one of at most 65535 and was allocated.
pub allocate-free_block :
    (n idx : ℕ) (p : Pool)
    → n ≤ free_index_empty
    → idx < n
    → 0 < p.used_count
    → p.used_count < 2 ^ 32
    → p.allocated idx ≡ true
    → let (out, q) = allocate (free_block idx p) in
      (out ≡ some idx)
      × (head_index q.free_head ≡ head_index p.free_head)
      × (q.used_count ≡ p.used_count)
      × ((x : ℕ) → q.allocated x ≡ p.allocated x)
      × ((x : ℕ) → x ≢ idx → q.words x ≡ p.words x)
unfolding allocate free_block
allocate-free_block n idx p few lt used small mine =
    let top : head_index (pack_head idx (head_tag p.free_head + 1)) ≡ idx =
      omega (arith, head_index-pack_head idx (head_tag p.free_head + 1)) in
    let tag = head_tag (pack_head idx (head_tag p.free_head + 1)) + 1 in
    let next : head_index (pack_head (head_index p.free_head) tag) ≡ head_index p.free_head =
      omega
        (arith, head_index-pack_head (head_index p.free_head) tag, head_index-mod p.free_head) in
    let full : (idx == 65535) ≡ false = ground arith in
    let same : (idx == idx) ≡ true = ground arith in
    rw (top, full, same) (refl, next, omega arith, λ x. ground arith, λ x ne. ground arith)
