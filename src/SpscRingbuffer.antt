-- ===== src/SpscRingbuffer.antt =====
-- include/osp/spsc_ringbuffer.hpp: the single-producer single-consumer ring, one call at a time.
-- `width` is the number of bits of `IndexT`, and the buffer has `2 ^ bits` slots. `blank` is the
-- value that the slots are initialised with. `size_t` has 64 bits.
pub mod Wrap
pub mod Contents
pub mod Fifo
pub mod Refine
pub mod Copies
pub mod PushBatch
pub mod PopBatch
pub mod Client
pub mod Narrow
mod Tests
use newosp.Base.{
  ℕ, zero, suc, ◌+◌, ◌-◌, ◌%◌, ◌^◌, min, bit_and, Bool, true, false, List, [], ◌∷◌, ◌++◌, Option,
  none, some, ltb, leb, ◌==◌, if◌then◌else◌, length, get_or, set, take, drop, replicate,
}

pub record Ring {ℓ} (A : Type ℓ) : Type ℓ where
  pub data_buff : List A
  pub head : ℕ
  pub tail : ℕ

-- `IndexT` subtraction: `static_cast<IndexT>(a - b)`.
abbrev pub sub_index : ℕ → ℕ → ℕ → ℕ
sub_index width a b = (a + 2 ^ width - b) % 2 ^ width

-- `a - b` as `==` against a `size_t` sees it. An `IndexT` narrower than `int` is promoted, so the
-- difference is an `int`, and a negative one becomes a large `size_t`.
abbrev pub sub_promoted : ℕ → ℕ → ℕ → ℕ
sub_promoted width a b = if ltb width 32 then (a + 2 ^ 64 - b) % 2 ^ 64 else sub_index width a b

-- `(a - b) <= i` for an index `i` of type `IndexT`: a comparison of `int`s if `IndexT` is promoted.
abbrev pub sub_le : ℕ → ℕ → ℕ → ℕ → Bool
sub_le width a b i =
    if ltb width 32 then (if ltb a b then true else leb (a - b) i) else leb (sub_index width a b) i

-- `std::memcpy` into the array from an index on.
unfoldable pub copy_to {ℓ} : {A : Type ℓ} → List A → ℕ → List A → List A
copy_to buff i [] = buff
copy_to buff i (x ∷ xs) = copy_to (set buff i x) (i + 1) xs

-- `std::memcpy` out of the array: `n` items from an index on.
unfoldable pub copy_from {ℓ} : {A : Type ℓ} → A → List A → ℕ → ℕ → List A
copy_from blank buff i zero = []
copy_from blank buff i (suc n) = get_or buff i blank ∷ copy_from blank buff (i + 1) n

-- `x & kMask`
abbrev pub masked : ℕ → ℕ → ℕ
masked bits x = bit_and x (2 ^ bits - 1)

-- `Capacity`
abbrev pub capacity : ℕ → ℕ
capacity bits = 2 ^ bits

unfoldable pub init {ℓ} : {A : Type ℓ} → A → ℕ → Ring A
init blank bits = record { data_buff = replicate (2 ^ bits) blank; head = 0; tail = 0 }

-- The element-wise loop of `PushBatch`, from round `i` on.
unfoldable pub write_each {ℓ} : {A : Type ℓ} → ℕ → ℕ → List A → ℕ → List A → List A
write_each bits head_offset buff i [] = buff
write_each bits head_offset buff i (x ∷ xs) =
    write_each bits head_offset (set buff (masked bits (head_offset + i)) x) (i + 1) xs

-- The two copies of `PushBatch` for a trivially copyable type. `xs` are the `to_write` items.
unfoldable pub write_parts {ℓ} : {A : Type ℓ} → ℕ → ℕ → List A → List A → List A
unfolding copy_to
write_parts bits head_offset buff xs =
    let first_part = min (length xs) (2 ^ bits - head_offset) in
    let buff' = copy_to buff head_offset (take first_part xs) in
    if ltb first_part (length xs) then copy_to buff' 0 (drop first_part xs) else buff'

-- The element-wise loop of `PopBatch`, with `n` rounds left.
unfoldable pub read_each {ℓ} : {A : Type ℓ} → A → ℕ → ℕ → List A → ℕ → ℕ → List A
read_each blank bits tail_offset buff i zero = []
read_each blank bits tail_offset buff i (suc n) =
    get_or buff (masked bits (tail_offset + i)) blank
    ∷ read_each blank bits tail_offset buff (i + 1) n

-- The two copies of `PopBatch`, of `to_read` items.
unfoldable pub read_parts {ℓ} : {A : Type ℓ} → A → ℕ → ℕ → List A → ℕ → List A
unfolding copy_from
read_parts blank bits tail_offset buff to_read =
    let first_part = min to_read (2 ^ bits - tail_offset) in
    let first = copy_from blank buff tail_offset first_part in
    if ltb first_part to_read then first ++ copy_from blank buff 0 (to_read - first_part) else first

module _ {ℓ} {A : Type ℓ} (width bits : ℕ) where
  abbrev is_full_index : Ring A → Bool
  is_full_index r = sub_promoted width r.head r.tail == 2 ^ bits

  -- `PushImpl`, and `Push` by copy and by move
  unfoldable pub push : Ring A → A → Bool × Ring A
  push r x = if is_full_index r then (false, r) else (
    true,
    record r {
      data_buff = set r.data_buff (masked bits r.head) x;
      head = (r.head + 1) % 2 ^ width;
    },
  )

  -- `PushFromCallback`. The callback reads and writes a state of the caller's.
  unfoldable pub push_from_callback {κ} :
      {S : Type κ} → (S → A × S) → S → Ring A → Bool × Ring A × S
  push_from_callback callback s r =
      if is_full_index r
      then (false, r, s)
      else (let (x, s') = callback s in
          (
            true,
            record r {
              data_buff = set r.data_buff (masked bits r.head) x;
              head = (r.head + 1) % 2 ^ width;
            },
            s',
          ))

  -- One round of `PushBatch`: the items written, the ring, and the items left. `trivial` is
  -- `kTriviallyCopyable`.
  abbrev pub space : Ring A → ℕ
  space r = (2 ^ bits + 2 ^ width - sub_index width r.head r.tail) % 2 ^ width

  unfoldable pub push_round : Bool → Ring A → ℕ → List A → Ring A
  push_round trivial r to_write xs = record r {
    data_buff =
        if trivial
        then write_parts bits (masked bits r.head) r.data_buff (take to_write xs)
        else write_each bits (masked bits r.head) r.data_buff 0 (take to_write xs);
    head = (r.head + to_write % 2 ^ width) % 2 ^ width;
  }

  -- `PushBatch`: the list holds the items from `buf[written]` on.
  unfoldable pub push_loop : ℕ → Bool → Ring A → ℕ → List A → Option (ℕ × Ring A)
  unfolding push_round
  push_loop zero trivial r written xs = none
  push_loop (suc fuel) trivial r written [] = some (written, r)
  push_loop (suc fuel) trivial r written (x ∷ xs) =
      let to_write = min (length (x ∷ xs)) (space r) in
      let rest =
        push_loop fuel trivial (push_round trivial r to_write (x ∷ xs)) (written + to_write)
          (drop to_write (x ∷ xs)) in
      if space r == 0 then some (written, r) else rest

  unfoldable pub push_batch : Bool → Ring A → List A → Option (ℕ × Ring A)
  unfolding push_loop
  push_batch trivial r xs = push_loop (suc (suc (length xs))) trivial r 0 xs

  -- `ProducerClear` and `ConsumerClear`
  unfoldable pub producer_clear : Ring A → Ring A
  producer_clear r = record r { head = r.tail }

  unfoldable pub consumer_clear : Ring A → Ring A
  consumer_clear r = record r { tail = r.head }

  -- `Discard`
  unfoldable pub discard : ℕ → Ring A → ℕ × Ring A
  discard count r =
      let to_discard = min count (sub_index width r.head r.tail) in
      if ltb 0 to_discard
      then (to_discard, record r { tail = (r.tail + to_discard % 2 ^ width) % 2 ^ width })
      else (to_discard, r)

  -- `Size`, `Available`, `IsEmpty`, `IsFull`
  unfoldable pub size : Ring A → ℕ
  size r = sub_index width r.head r.tail

  unfoldable pub available : Ring A → ℕ
  available r = space r

  unfoldable pub is_empty : Ring A → Bool
  unfolding size
  is_empty r = size r == 0

  unfoldable pub is_full : Ring A → Bool
  unfolding available
  is_full r = available r == 0

module _ {ℓ} {A : Type ℓ} (blank : A) (width bits : ℕ) where
  -- `Pop`: the popped element, `none` for `false`.
  unfoldable pub pop : Ring A → Option A × Ring A
  pop r = if r.tail == r.head then (none, r) else (
    some (get_or r.data_buff (masked bits r.tail) blank),
    record r { tail = (r.tail + 1) % 2 ^ width },
  )

  -- `PopBatch`, with the items read so far.
  unfoldable pub pop_loop : ℕ → Bool → Ring A → List A → ℕ → Option (List A × Ring A)
  pop_loop zero trivial r out count = none
  pop_loop (suc fuel) trivial r out zero = some (out, r)
  pop_loop (suc fuel) trivial r out (suc left) =
      let available = sub_index width r.head r.tail in
      let to_read = min (suc left) available in
      let tail_offset = masked bits r.tail in
      let items =
        if trivial
        then read_parts blank bits tail_offset r.data_buff to_read
        else read_each blank bits tail_offset r.data_buff 0 to_read in
      let rest =
        pop_loop fuel trivial (record r { tail = (r.tail + to_read % 2 ^ width) % 2 ^ width })
          (out ++ items) (suc left - to_read) in
      if available == 0 then some (out, r) else rest

  unfoldable pub pop_batch : Bool → Ring A → ℕ → Option (List A × Ring A)
  unfolding pop_loop
  pop_batch trivial r count = pop_loop (suc (suc count)) trivial r [] count

  -- `Peek`, `At` and `operator[]`: the element that the pointer or reference is to.
  unfoldable pub peek : Ring A → Option A
  peek r = if r.tail == r.head then none else some (get_or r.data_buff (masked bits r.tail) blank)

  unfoldable pub at : ℕ → Ring A → Option A
  at index r =
      if sub_le width r.head r.tail (index % 2 ^ width)
      then none
      else some (get_or r.data_buff (masked bits ((r.tail + index) % 2 ^ 64)) blank)

  unfoldable pub at_unchecked : ℕ → Ring A → A
  at_unchecked index r = get_or r.data_buff (masked bits ((r.tail + index) % 2 ^ 64)) blank
