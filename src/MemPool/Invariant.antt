-- ===== src/MemPool/Invariant.antt =====
-- What every move of every thread keeps: the free list is a chain through the blocks' first words, and
-- each block is on it once, or with one thread, or with the client.
use newosp.Base.{
  All, ℕ, ◌+◌, ◌%◌, ◌^◌, ◌≤◌, ◌<◌, ◌≡◌, ◌≢◌, true, Option, none, some, List, [], ◌∷◌, arith,
  bit_and-mask, bit_or-fields, ◌*◌, ◌/◌,
}
use newosp.MemPool.{pack_head, head_index, head_tag, free_index_empty}
use newosp.MemPool.Threads.{
  Pc, loaded, read, won, counted, freeing, linking, linked, listed, client, thread, Shared,
}

pub head_index-mod : (head : ℕ) → head_index head ≡ head % 65536
unfolding head_index
head_index-mod head = bit_and-mask 16 head

pub head_tag-mod : (head : ℕ) → head_tag head ≡ head / 65536 % 65536
unfolding head_tag
head_tag-mod head = bit_and-mask 16 (head / 2 ^ 16)

pack_head-sum : (index tag : ℕ) → pack_head index tag ≡ index % 65536 + tag % 65536 * 65536
unfolding pack_head
pack_head-sum index tag =
    let low = bit_and-mask 16 index in
    let high = bit_and-mask 16 tag in
    let small : tag % 65536 * 65536 % 2 ^ 32 ≡ tag % 65536 * 65536 = omega arith in
    rw (low, high, small) (bit_or-fields 16 (index % 65536) (tag % 65536) (omega arith))

pub head_index-pack_head : (index tag : ℕ) → head_index (pack_head index tag) ≡ index % 65536
head_index-pack_head index tag =
    omega (arith, head_index-mod (pack_head index tag), pack_head-sum index tag)

pub head_tag-pack_head : (index tag : ℕ) → head_tag (pack_head index tag) ≡ tag % 65536
head_tag-pack_head index tag =
    omega (arith, head_tag-mod (pack_head index tag), pack_head-sum index tag)

-- From a head's index along the blocks' words to the end mark.
abbrev pub Chain : (ℕ → ℕ) → ℕ → List ℕ → Type 0
Chain words i [] = i ≡ free_index_empty
Chain words i (x ∷ l) = (i ≡ x) × (x < free_index_empty) × Chain words (words x % 65536) l

abbrev pub Distinct : List ℕ → Type 0
Distinct [] = Unit
Distinct (x ∷ l) = All (λ y. y ≢ x) l × Distinct l

-- The block that a thread has in Allocate or Free.
abbrev pub holds : Pc → Option ℕ
holds (won x) = some x
holds (counted x) = some x
holds (freeing x) = some x
holds (linking x head since) = some x
holds (linked x head since) = some x
holds _ = none

-- What the locals of a thread say: the head that it loaded is the head while that has not changed, and
-- so is the word behind it; the link that it wrote is there.
abbrev pub IsFresh : Shared → ℕ → ℕ → Type 0
IsFresh m head since =
    (since ≤ m.changes)
    × (head_tag head ≡ since % 65536)
    × (since ≡ m.changes → head ≡ m.pool.free_head)

abbrev pub Locals : Shared → Pc → Type 0
Locals m (loaded head since) = IsFresh m head since
Locals m (read head since next) =
    IsFresh m head since
    × (head_index head ≢ free_index_empty)
    × (since ≡ m.changes → next ≡ m.pool.words (head_index head))
Locals m (linking x head since) = IsFresh m head since
Locals m (linked x head since) = IsFresh m head since × (m.pool.words x ≡ head_index head)
Locals m _ = Unit

pub record IsSound (max_blocks : ℕ) (m : Shared) (pcs : ℕ → Pc) : Type 0 where
  pub few : max_blocks ≤ free_index_empty
  pub tagged : head_tag m.pool.free_head ≡ m.changes % 65536
  pub chained : Chain m.pool.words (head_index m.pool.free_head) m.free
  pub apart : Distinct m.free
  pub owned : All (λ x. (m.owner x ≡ listed) × (x < max_blocks)) m.free
  pub held : (i x : ℕ) → holds (pcs i) ≡ some x → (m.owner x ≡ thread i) × (x < max_blocks)
  pub lent : (x : ℕ) → m.clients x ≡ true → (m.owner x ≡ client) × (x < max_blocks)
  pub locals : (i : ℕ) → Locals m (pcs i)
