-- ===== src/MemPool/Tests.antt =====
-- Runs of the pool at concrete inputs.
use newosp.Base.{ℕ, ◌<◌, ◌≡◌, ◌≢◌, refl, false, some, arith}
use newosp.MemPool.{Pool, update, head_index, pack_head, new_pool, allocate, free_block}
use newosp.MemPool.Threads.{System, Reach, start, later, pick, initial, load_head, loaded}
use newosp.MemPool.Invariant.{holds}
use newosp.MemPool.Safety.{no_block_twice, allocate-free_block}

-- Two threads that have both loaded the head of a pool of three blocks.
abbrev two_loads : System
two_loads =
    let s = initial 3 in
    let a = record s { pcs = update s.pcs 0 (loaded s.shared.pool.free_head 0) } in
    record a { pcs = update a.pcs 1 (loaded s.shared.pool.free_head 0) }

two_loads-Reach : Reach 3 two_loads
two_loads-Reach = later (later start (pick 0 load_head)) (pick 1 load_head)

no_block_twice_example :
    ((i j x : ℕ) → holds (two_loads.pcs i) ≡ some x → holds (two_loads.pcs j) ≡ some x → i ≡ j)
    × ((i x : ℕ)
        → holds (two_loads.pcs i) ≡ some x
        → (two_loads.shared.clients x ≡ false) × (x < 3))
no_block_twice_example = no_block_twice (omega arith) (omega arith) two_loads-Reach

-- A pool of three blocks after one allocation.
abbrev one_used : Pool
one_used = (allocate (new_pool 3)).1

allocate-free_block_example :
    let (out, q) = allocate (free_block 0 one_used) in
    (out ≡ some 0)
    × (head_index q.free_head ≡ head_index one_used.free_head)
    × (q.used_count ≡ one_used.used_count)
    × ((x : ℕ) → q.allocated x ≡ one_used.allocated x)
    × ((x : ℕ) → x ≢ 0 → q.words x ≡ one_used.words x)
unfolding allocate pack_head head_index
allocate-free_block_example =
    allocate-free_block 3 0 one_used (omega arith) (omega arith) (omega arith) (omega arith) refl
