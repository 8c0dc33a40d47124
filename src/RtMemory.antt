-- ===== src/RtMemory.antt =====
-- The pool of equal blocks of src/runtime/memory/rt_memory.c. A pool is a record that each function
-- takes and returns; a call under its lock is one step. Addresses are numbers, 0 is NULL. What
-- `malloc` and `aligned_alloc` give is an argument. `size_t` has 64 bits.
pub mod Client
pub mod Sharing
mod Tests
use cant.Prelude.{
  ℕ, zero, suc, ◌+◌, ◌-◌, ◌*◌, ◌/◌, ◌%◌, ◌^◌, Bool, true, false, not, ◌||◌, Option, none, some,
  List, [], ◌∷◌, ltb, leb, ◌==◌, if◌then◌else◌, set, get_or,
}

abbrev pub u64_mod : ℕ
u64_mod = 2 ^ 64

abbrev pub u64 : ℕ → ℕ
u64 n = n % u64_mod

-- `RTMemPool`
pub record RtMemPool : Type 0 where
  pub memory : ℕ
  pub free_blocks : List ℕ
  pub block_size : ℕ
  pub block_count : ℕ
  pub free_count : ℕ

-- The loop that fills the list of free blocks.
unfoldable pub fill : ℕ → ℕ → ℕ → ℕ → List ℕ
fill memory block_size i zero = []
fill memory block_size i (suc n) = (memory + i * block_size) ∷ fill memory block_size (i + 1) n

-- `(block_size + 63) & ~63`
unfoldable pub aligned : ℕ → ℕ
aligned block_size = u64 (block_size + 63) / 64 * 64

-- `rt_mempool_create`, with whether the pool and the list get memory, and the address that
-- `aligned_alloc` gives.
unfoldable pub create : ℕ → ℕ → Bool → ℕ → Bool → Option RtMemPool
create block_size block_count pool_given memory list_given =
    if not pool_given || (memory == 0 || not list_given)
    then none
    else some (record {
      memory = memory;
      free_blocks = fill memory (aligned block_size) 0 block_count;
      block_size = aligned block_size;
      block_count = block_count;
      free_count = block_count;
    })

-- `rt_mempool_alloc`: the pool and the block.
unfoldable pub alloc : RtMemPool → RtMemPool × Option ℕ
alloc p = if p.free_count == 0 then (p, none) else (
  record p { free_count = p.free_count - 1 },
  some (get_or p.free_blocks (p.free_count - 1) 0),
)

-- `rt_mempool_free`
unfoldable pub free : RtMemPool → ℕ → RtMemPool
free p address =
    if address == 0
      || (ltb address p.memory || leb (p.memory + u64 (p.block_count * p.block_size)) address)
    then p
    else if ltb p.free_count p.block_count
    then record p {
      free_blocks = set p.free_blocks p.free_count address;
      free_count = p.free_count + 1;
    }
    else p

-- `rt_mempool_available`
abbrev pub available : RtMemPool → ℕ
available p = p.free_count
