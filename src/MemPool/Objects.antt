-- ===== src/MemPool/Objects.antt =====
-- ObjectPool of include/osp/mem_pool.hpp, used by a lone thread. An object is the index of its block;
-- `destroyed` are the calls of ~T, in order.
use newosp.Base.{
  ℕ, zero, suc, Bool, true, false, Option, none, some, List, [], ◌∷◌, ◌++◌, if◌then◌else◌, ◌≡◌,
  refl, ◌==◌, arith, ◌+◌,
}
use newosp.MemPool.{Pool, update, new_pool, allocate, free_block}

pub record ObjectPool : Type 0 where
  pub pool : Pool
  pub alive : ℕ → Bool
  pub destroyed : List ℕ

-- The constructor.
abbrev pub new_object_pool : ℕ → ObjectPool
new_object_pool max_objects = record {
  pool = new_pool max_objects;
  alive = λ i. false;
  destroyed = [];
}

-- Create after Allocate: the constructor of T leaves `word` in the block's first bytes.
unfoldable pub create_in : ℕ → Option ℕ × Pool → ObjectPool → Option ℕ × ObjectPool
create_in word (none, p) o = (none, o)
create_in word (some idx, p) o = (
  some idx,
  record o { pool = record p { words = update p.words idx word }; alive = update o.alive idx true },
)

-- Create and CreateChecked.
unfoldable pub create : ℕ → ObjectPool → Option ℕ × ObjectPool
create word o = create_in word (allocate o.pool) o

-- Destroy: `none` is the failed assertion that the object is alive.
unfoldable pub destroy : ℕ → ObjectPool → Option ObjectPool
destroy idx o =
    if o.alive idx
    then some (record o {
      pool = free_block idx o.pool;
      alive = update o.alive idx false;
      destroyed = o.destroyed ++ (idx ∷ []);
    })
    else none

-- The loop of the destructor from the object `i` on.
unfoldable pub destroy_alive : ℕ → ℕ → ObjectPool → ObjectPool
destroy_alive i zero o = o
destroy_alive i (suc n) o = destroy_alive (i + 1) n (
    if o.alive i
    then record o { alive = update o.alive i false; destroyed = o.destroyed ++ (i ∷ []) }
    else o)

-- What a Create comes to: no object, or one that Destroy accepts and has destroyed last.
abbrev IsDestroyable : ObjectPool → Option ℕ × ObjectPool → Type 0
IsDestroyable o (none, q) = q ≡ o
IsDestroyable o (some idx, q) =
    (u : ObjectPool) × (destroy idx q ≡ some u) × (u.destroyed ≡ o.destroyed ++ (idx ∷ []))

create_in-IsDestroyable :
    (word : ℕ) (r : Option ℕ × Pool) (o : ObjectPool) → IsDestroyable o (create_in word r o)
unfolding create_in destroy
create_in-IsDestroyable word (none, p) o = refl
create_in-IsDestroyable word (some idx, p) o =
    let q = (create_in word (some idx, p) o).1 in
    let same : (idx == idx) ≡ true = ground arith in
    (
      record q {
        pool = free_block idx q.pool;
        alive = update q.alive idx false;
        destroyed = q.destroyed ++ (idx ∷ []);
      },
      rw same refl,
      refl,
    )
