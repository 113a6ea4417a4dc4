-- ===== src/MemPool.antt =====
-- The fixed-size block pool, include/osp/mem_pool.hpp. A block is its index; the first four bytes of
-- each block, where a free block keeps the index of the next, are `words`. The packed head, the counter
-- and the flags are atomic: each load, store and exchange is one move of a thread (MemPool/Threads.antt).
use newosp.Base.{
  leb, ◌||◌, ◌/◌, ltb, ◌&&◌, ℕ, ◌+◌, ◌-◌, ◌*◌, ◌%◌, ◌^◌, ◌==◌, if◌then◌else◌, Bool, true, false,
  Option, none, some, bit_and, bit_or, shr,
}
pub mod Threads
pub mod Invariant
mod Listing
mod Kept
mod Objects
mod Moves
mod Safety
mod Tests

-- kFreeIndexMask, which is also kFreeIndexEmpty.
abbrev pub free_index_empty : ℕ
free_index_empty = 65535

-- kInvalidIndex.
abbrev pub invalid_index : ℕ
invalid_index = 4294967295

unfoldable pub pack_head : ℕ → ℕ → ℕ
pack_head index tag = bit_or (bit_and index 65535) (bit_and tag 65535 * 2 ^ 16 % 2 ^ 32)

unfoldable pub head_index : ℕ → ℕ
head_index head = bit_and head 65535

unfoldable pub head_tag : ℕ → ℕ
head_tag head = bit_and (shr head 16) 65535

-- A memory with one word changed.
abbrev pub update {ℓ} : {A : Type ℓ} → (ℕ → A) → ℕ → A → ℕ → A
update f i a j = if i == j then a else f j

-- FixedPool.
pub record Pool : Type 0 where
  pub words : ℕ → ℕ
  pub free_head : ℕ
  pub used_count : ℕ
  pub allocated : ℕ → Bool

-- The constructor.
abbrev pub new_pool : ℕ → Pool
new_pool max_blocks = record {
  words = λ i. if i + 1 == max_blocks then invalid_index else i + 1;
  free_head = pack_head 0 0;
  used_count = 0;
  allocated = λ i. false;
}

-- Allocate and AllocateChecked by a thread that no other disturbs: the first exchange succeeds.
unfoldable pub allocate : Pool → Option ℕ × Pool
allocate p =
    let idx = head_index p.free_head in
    if idx == free_index_empty then (none, p) else (
      some idx,
      record p {
        free_head = pack_head (p.words idx) (head_tag p.free_head + 1);
        used_count = (p.used_count + 1) % 2 ^ 32;
        allocated = update p.allocated idx true;
      },
    )

-- Free by such a thread.
unfoldable pub free_block : ℕ → Pool → Pool
free_block idx p = record p {
  words = update p.words idx (head_index p.free_head);
  free_head = pack_head idx (head_tag p.free_head + 1);
  used_count = (p.used_count + 2 ^ 32 - 1) % 2 ^ 32;
  allocated = update p.allocated idx false;
}

unfoldable pub free_count : ℕ → Pool → ℕ
free_count max_blocks p = (max_blocks + 2 ^ 32 - p.used_count) % 2 ^ 32

-- PtrToIndex, BlockPtr and OwnsPointer, on addresses: `base` is the array's, `stride` kAlignedBlockSize.
abbrev pub block_ptr : ℕ → ℕ → ℕ → ℕ
block_ptr base stride idx = base + idx * stride

unfoldable pub ptr_to_index : ℕ → ℕ → ℕ → ℕ
ptr_to_index base stride addr = (addr - base) / stride

unfoldable pub owns_pointer : ℕ → ℕ → ℕ → ℕ → Bool
owns_pointer base stride max_blocks addr =
    if ltb addr base || leb (base + stride * max_blocks) addr
    then false
    else (addr - base) % stride == 0

unfoldable pub is_allocated : ℕ → ℕ → ℕ → Pool → ℕ → Bool
is_allocated base stride max_blocks p addr =
    owns_pointer base stride max_blocks addr && p.allocated (ptr_to_index base stride addr)

-- kAlignedBlockSize, for an alignment that is a power of two.
unfoldable pub aligned_block_size : ℕ → ℕ → ℕ
aligned_block_size align block_size = (block_size + align - 1) / align * align
