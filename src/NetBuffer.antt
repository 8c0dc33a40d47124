-- ===== src/NetBuffer.antt =====
-- The byte ring buffer of src/runtime/network/net_buffer.c and net_buffer.h.
-- A pointer is an `Option`, `none` for NULL; a function that writes through a pointer returns
-- what it points to afterwards. `enter_critical` and `exit_critical` make each call one step.
pub mod Inv
pub mod Store
pub mod Load
pub mod Fifo
pub mod Refine
pub mod Run
mod Tests
use cant.Prelude.{
  ℕ, ◌+◌, ◌-◌, Bool, true, false, Option, none, some, List, ltb, leb, ◌==◌, if◌then◌else◌, memcpy,
  replicate, drop,
}
use cant.Prelude.Words.{u32, sub32}

-- `NetBuffer`; `bytes` is the field `data`.
pub record NetBuffer : Type 0 where
  pub bytes : Option (List ℕ)
  pub size : ℕ
  pub read_index : ℕ
  pub write_index : ℕ
  pub count : ℕ
  pub overflow : Bool

-- `NetBuffer_Reset` on a buffer that is there; `memset` writes `size` zeroes.
unfoldable pub cleared : NetBuffer → NetBuffer
cleared b = record b {
  read_index = 0;
  write_index = 0;
  count = 0;
  overflow = false;
  bytes = elim (b.bytes) [ none ↦ none | some d ↦ some (memcpy d 0 (replicate b.size 0) b.size) ];
}

-- `NetBuffer_Reset`
unfoldable pub reset : Option NetBuffer → Option NetBuffer
unfolding cleared
reset none = none
reset (some b) = some (cleared b)

-- `NetBuffer_Init`. `block` is what `malloc(size)` returns.
unfoldable pub init : Option NetBuffer → ℕ → Option (List ℕ) → Option NetBuffer × Bool
unfolding cleared
init none size block = (none, false)
init (some b) size none = (some (if size == 0 then b else record b { bytes = none }), false)
init (some b) size (some d) =
    if size == 0
    then (some b, false)
    else (some (cleared (record b { bytes = some d; size = size })), true)

-- `NetBuffer_Deinit`; `free` has no result.
unfoldable pub deinit : Option NetBuffer → Option NetBuffer
deinit none = none
deinit (some b) = some (record {
  bytes = none;
  size = 0;
  read_index = 0;
  write_index = 0;
  count = 0;
  overflow = false;
})

-- `NetBuffer_GetFree` on a buffer that is there: `uint32_t` subtraction.
abbrev pub free_of : NetBuffer → ℕ
free_of b = sub32 b.size b.count

-- The array after the copies of `NetBuffer_Write`, in one piece or round its end.
unfoldable pub stored : NetBuffer → List ℕ → List ℕ → ℕ → List ℕ
stored b d src n =
    let first_chunk = sub32 b.size b.write_index in
    if leb n first_chunk
    then memcpy d b.write_index src n
    else memcpy (memcpy d b.write_index src first_chunk) 0 (drop first_chunk src) (n - first_chunk)

-- The buffer after a `NetBuffer_Write` that fits.
unfoldable pub store : NetBuffer → List ℕ → List ℕ → ℕ → NetBuffer
store b d src n =
    let first_chunk = sub32 b.size b.write_index in
    let next = u32 (b.write_index + n) in
    record b {
      bytes = some (stored b d src n);
      write_index =
          if leb n first_chunk then if leb b.size next then 0 else next else n - first_chunk;
      count = u32 (b.count + n);
    }

write_bytes : NetBuffer → Option (List ℕ) → Option (List ℕ) → ℕ → NetBuffer × Bool
unfolding store
write_bytes b none src n = (b, false)
write_bytes b (some d) none n = (b, false)
write_bytes b (some d) (some src) n =
    if n == 0
    then (b, false)
    else if ltb (free_of b) n
    then (record b { overflow = true }, false)
    else (store b d src n, true)

-- `NetBuffer_Write`
unfoldable pub write : Option NetBuffer → Option (List ℕ) → ℕ → Option NetBuffer × Bool
unfolding write_bytes
write none src n = (none, false)
write (some b) src n = let (b', done) = write_bytes b b.bytes src n in (some b', done)

-- The copies of `NetBuffer_Read` and `NetBuffer_Peek` into the caller's array `out`.
unfoldable pub load : NetBuffer → List ℕ → List ℕ → ℕ → List ℕ
load b d out n =
    let first_chunk = sub32 b.size b.read_index in
    if leb n first_chunk
    then memcpy out 0 (drop b.read_index d) n
    else memcpy (memcpy out 0 (drop b.read_index d) first_chunk) first_chunk d (n - first_chunk)

-- The index and count after `NetBuffer_Read`.
unfoldable pub consume : NetBuffer → ℕ → NetBuffer
consume b n =
    let first_chunk = sub32 b.size b.read_index in
    let next = u32 (b.read_index + n) in
    record b {
      read_index =
          if leb n first_chunk then if leb b.size next then 0 else next else n - first_chunk;
      count = sub32 b.count n;
    }

read_bytes : NetBuffer → Option (List ℕ) → Option (List ℕ) → ℕ → NetBuffer × Option (List ℕ) × Bool
unfolding load consume
read_bytes b none out n = (b, out, false)
read_bytes b (some d) none n = (b, none, false)
read_bytes b (some d) (some out) n =
    if n == 0
    then (b, some out, false)
    else if ltb b.count n
    then (b, some out, false)
    else (consume b n, some (load b d out n), true)

-- `NetBuffer_Read`
unfoldable pub read :
    Option NetBuffer → Option (List ℕ) → ℕ → Option NetBuffer × Option (List ℕ) × Bool
unfolding read_bytes
read none out n = (none, out, false)
read (some b) out n = let (b', out', done) = read_bytes b b.bytes out n in (some b', out', done)

peek_bytes : NetBuffer → Option (List ℕ) → Option (List ℕ) → ℕ → Option (List ℕ) × Bool
unfolding load
peek_bytes b none out n = (out, false)
peek_bytes b (some d) none n = (none, false)
peek_bytes b (some d) (some out) n =
    if n == 0
    then (some out, false)
    else if ltb b.count n
    then (some out, false)
    else (some (load b d out n), true)

-- `NetBuffer_Peek`: the buffer is `const`.
unfoldable pub peek : Option NetBuffer → Option (List ℕ) → ℕ → Option (List ℕ) × Bool
unfolding peek_bytes
peek none out n = (out, false)
peek (some b) out n = peek_bytes b b.bytes out n

-- `NetBuffer_GetAvailable`
unfoldable pub get_available : Option NetBuffer → ℕ
get_available none = 0
get_available (some b) = b.count

-- `NetBuffer_GetFree`
unfoldable pub get_free : Option NetBuffer → ℕ
get_free none = 0
get_free (some b) = free_of b

-- `NetBuffer_IsEmpty`
unfoldable pub is_empty : Option NetBuffer → Bool
is_empty none = true
is_empty (some b) = b.count == 0

-- `NetBuffer_IsFull`
unfoldable pub is_full : Option NetBuffer → Bool
is_full none = true
is_full (some b) = leb b.size b.count

-- `NetBuffer_HasOverflowed`
unfoldable pub has_overflowed : Option NetBuffer → Bool
has_overflowed none = false
has_overflowed (some b) = b.overflow
