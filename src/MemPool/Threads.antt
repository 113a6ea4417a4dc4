-- ===== src/MemPool/Threads.antt =====
-- Threads in Allocate and Free of FixedPool, one atomic access at a time.
use newosp.Base.{zero, suc, ℕ, ◌+◌, ◌%◌, ◌^◌, ◌<◌, ◌≡◌, ◌≢◌, Bool, true, false, List, [], ◌∷◌, ◌-◌}
use newosp.MemPool.{Pool, update, pack_head, head_index, head_tag, free_index_empty, new_pool}

-- Where a thread is, with its locals. `since` is the number of times that the head had changed when the
-- thread last loaded it: the code has no such variable, no move but the last test of an exchange reads it.
pub data Pc : Type 0 where
  idle : Pc
  -- Allocate: at the loop's test; before the exchange; after it; after the count.
  loaded : (head since : ℕ) → Pc
  read : (head since next : ℕ) → Pc
  won : (idx : ℕ) → Pc
  counted : (idx : ℕ) → Pc
  -- Free: called; before StoreIndex; before the exchange; after it; after the count.
  freeing : (idx : ℕ) → Pc
  linking : (idx head since : ℕ) → Pc
  linked : (idx head since : ℕ) → Pc
  unlinked : (idx : ℕ) → Pc
  uncounted : (idx : ℕ) → Pc

-- Who has a block: the free list, the client, or a thread in Allocate or Free.
pub data Owner : Type 0 where
  listed client : Owner
  thread : ℕ → Owner

-- The shared memory. The client has the blocks that Allocate returned and that were not freed since.
-- `changes`, `free` and `owner` are what the proof keeps: no move of the code depends on them, but that
-- an exchange comes within 65535 changes of the head after the load.
pub record Shared : Type 0 where
  pub pool : Pool
  pub clients : ℕ → Bool
  pub changes : ℕ
  pub free : List ℕ
  pub owner : ℕ → Owner

abbrev pub tail_of : List ℕ → List ℕ
tail_of [] = []
tail_of (x ∷ l) = l

-- A move of the thread `i`.
pub data Move (i : ℕ) : Shared → Pc → Shared → Pc → Type 0 where
  load_head : {m : Shared} → Move i m idle m (loaded m.pool.free_head m.changes)
  exhausted :
      {m : Shared} {head since : ℕ}
      → head_index head ≡ free_index_empty
      → Move i m (loaded head since) m idle
  load_index :
      {m : Shared} {head since : ℕ}
      → head_index head ≢ free_index_empty
      → Move i m (loaded head since) m (read head since (m.pool.words (head_index head)))
  pop_wins :
      {m : Shared} {head since next : ℕ}
      → m.pool.free_head ≡ head
      → m.changes < since + 2 ^ 16
      → Move i m
          (read head since next)
          (record m {
            pool = record m.pool { free_head = pack_head next (head_tag head + 1) };
            changes = m.changes + 1;
            free = tail_of m.free;
            owner = update m.owner (head_index head) (thread i);
          })
          (won (head_index head))
  pop_fails :
      {m : Shared} {head since next : ℕ}
      → Move i m (read head since next) m (loaded m.pool.free_head m.changes)
  count_up :
      {m : Shared} {idx : ℕ}
      → Move i m
          (won idx)
          (record m { pool = record m.pool { used_count = (m.pool.used_count + 1) % 2 ^ 32 } })
          (counted idx)
  mark :
      {m : Shared} {idx : ℕ}
      → Move i m
          (counted idx)
          (record m {
            pool = record m.pool { allocated = update m.pool.allocated idx true };
            clients = update m.clients idx true;
            owner = update m.owner idx client;
          })
          idle
  -- The client writes into a block that it has.
  client_writes :
      {m : Shared} (idx word : ℕ)
      → m.clients idx ≡ true
      → Move i m idle
          (record m { pool = record m.pool { words = update m.pool.words idx word } })
          idle
  -- Free of a block that the client has.
  call_free :
      {m : Shared} {idx : ℕ}
      → m.clients idx ≡ true
      → Move i m idle
          (record m { clients = update m.clients idx false; owner = update m.owner idx (thread i) })
          (freeing idx)
  load_for_free :
      {m : Shared} {idx : ℕ} → Move i m (freeing idx) m (linking idx m.pool.free_head m.changes)
  store_index :
      {m : Shared} {idx head since : ℕ}
      → Move i m
          (linking idx head since)
          (record m { pool = record m.pool { words = update m.pool.words idx (head_index head) } })
          (linked idx head since)
  push_wins :
      {m : Shared} {idx head since : ℕ}
      → m.pool.free_head ≡ head
      → m.changes < since + 2 ^ 16
      → Move i m
          (linked idx head since)
          (record m {
            pool = record m.pool { free_head = pack_head idx (head_tag head + 1) };
            changes = m.changes + 1;
            free = idx ∷ m.free;
            owner = update m.owner idx listed;
          })
          (unlinked idx)
  push_fails :
      {m : Shared} {idx head since : ℕ}
      → Move i m (linked idx head since) m (linking idx m.pool.free_head m.changes)
  count_down :
      {m : Shared} {idx : ℕ}
      → Move i m
          (unlinked idx)
          (record m {
            pool = record m.pool { used_count = (m.pool.used_count + 2 ^ 32 - 1) % 2 ^ 32 };
          })
          (uncounted idx)
  unmark :
      {m : Shared} {idx : ℕ}
      → Move i m
          (uncounted idx)
          (record m { pool = record m.pool { allocated = update m.pool.allocated idx false } })
          idle

pub record System : Type 0 where
  pub shared : Shared
  pub pcs : ℕ → Pc

-- Any number of threads, one of which moves.
pub data Step : System → System → Type 0 where
  pick :
      {s : System} {m : Shared} {p : Pc} (i : ℕ)
      → Move i s.shared (s.pcs i) m p
      → Step s (record { shared = m; pcs = update s.pcs i p })

-- The indices from one on, as many as asked for.
abbrev pub indices : ℕ → ℕ → List ℕ
indices i zero = []
indices i (suc n) = i ∷ indices (i + 1) n

abbrev pub initial : ℕ → System
initial max_blocks = record {
  shared = record {
    pool = new_pool max_blocks;
    clients = λ x. false;
    changes = 0;
    free = indices 0 max_blocks;
    owner = λ x. listed;
  };
  pcs = λ i. idle;
}

-- What a pool of so many blocks comes to by any moves of any threads.
pub data Reach (max_blocks : ℕ) : System → Type 0 where
  start : Reach max_blocks (initial max_blocks)
  later : {s t : System} → Reach max_blocks s → Step s t → Reach max_blocks t
