-- ===== src/DiagMemory/Calls.antt =====
-- The operations of memory_manager.c of the diagnostics.
use cant.Prelude.{
  ℕ, zero, suc, ◌+◌, ◌-◌, ◌*◌, ◌/◌, Bool, true, false, not, ◌&&◌, ◌||◌, Option, none, some, List,
  [], ◌∷◌, ltb, ◌==◌, if◌then◌else◌, drop, length,
}
use cant.Prelude.Words.{u32, sub32}
use cant.DiagMemory.{
  MemoryAreaType, memory_area_ram, MemoryAreaDef, MemoryResult, memory_result_success,
  memory_result_invalid_address, memory_result_access_denied, memory_result_verify_failed,
  memory_result_busy, memory_result_error, MemoryManagerConfig, MemoryManager, Memory, areas,
  find_memory_area, validate_address_range, check_access_rights, memory_access_read,
  memory_access_write, platform_read_memory, platform_write_memory, platform_erase_memory,
}

-- `Memory_Manager_Init`; the timer's memory is left alone.
unfoldable pub init :
    {W : Type 0} → MemoryManager W → Option (MemoryManagerConfig W) → MemoryManager W × Bool
init m none = (m, false)
init m (some config) = elim (config.memory_areas) [
  | none ↦ (m, false)
  | some [] ↦ (m, false)
  | some (x ∷ xs) ↦ (
    record m {
      config = config;
      is_busy = false;
      current_address = 0;
      remaining_bytes = 0;
      last_result = memory_result_success;
      initialized = true;
    },
    true,
  )
]

-- `Memory_Manager_DeInit`: `memset` to zero.
unfoldable pub deinit : {W : Type 0} → MemoryManager W
deinit = record {
  config = record {
    memory_areas = none;
    write_timeout_ms = 0;
    erase_timeout_ms = 0;
    operation_complete_callback = none;
  };
  is_busy = false;
  current_address = 0;
  remaining_bytes = 0;
  last_result = memory_result_success;
  operation_timer = record { start_time = 0; timeout = 0; running = false };
  initialized = false;
}

-- The checks at the start of each operation: `none` if they let it go on.
unfoldable pub refusal : {W : Type 0} → MemoryManager W → ℕ → ℕ → ℕ → Option MemoryResult
refusal m address n rights =
    if not m.initialized || n == 0
    then some memory_result_error
    else if m.is_busy
    then some memory_result_busy
    else if not (validate_address_range (areas m) address n)
    then some memory_result_invalid_address
    else if not (check_access_rights (areas m) address rights)
    then some memory_result_access_denied
    else none

-- The state when an operation has ended.
abbrev pub completed : {W : Type 0} → MemoryManager W → ℕ → ℕ → MemoryResult → MemoryManager W
completed m address n result = record m {
  is_busy = false;
  current_address = address;
  remaining_bytes = n;
  last_result = result;
}

-- `timer_start` of the operation's timer.
abbrev pub timed : {W : Type 0} → MemoryManager W → ℕ → ℕ → MemoryManager W
timed m now timeout = record m {
  operation_timer = record { start_time = now; timeout = timeout; running = true };
}

-- The callback, if there is one.
unfoldable pub notify : {W : Type 0} → MemoryManager W → W → MemoryResult → W
notify m w result = elim (m.config.operation_complete_callback) [ none ↦ w | some f ↦ f w result ]

module _ {W : Type 0} where
  -- `Memory_Manager_Read` of `n` bytes to the caller's buffer.
  unfoldable pub read :
      MemoryManager W → W → Memory → ℕ → List ℕ → ℕ → MemoryManager W × W × List ℕ × MemoryResult
  read m w memory address buffer n =
      let (buffer', result) = platform_read_memory (areas m) memory address buffer n in
      elim (refusal m address n memory_access_read) [
        | some refused ↦ (m, w, buffer, refused)
        | none ↦ (completed m address n result, notify m w result, buffer', result)
      ]

  -- `Memory_Manager_Write` of the bytes of a buffer.
  unfoldable pub write :
      MemoryManager W → W → Memory → ℕ → ℕ → List ℕ → MemoryManager W × W × Memory × MemoryResult
  write m w memory now address bytes =
      let n = length bytes in
      let (memory', result) = platform_write_memory (areas m) memory address bytes in
      elim (refusal m address n memory_access_write) [
        | some refused ↦ (m, w, memory, refused)
        | none ↦ (
          completed (timed m now m.config.write_timeout_ms) address n result,
          notify m w result,
          memory',
          result,
        )
      ]

  -- `Memory_Manager_Erase`
  unfoldable pub erase : MemoryManager W → W → ℕ → ℕ → ℕ → MemoryManager W × W × MemoryResult
  erase m w now address n =
      let result = platform_erase_memory (areas m) address in
      elim (refusal m address n memory_access_write) [
        | some refused ↦ (m, w, refused)
        | none ↦ (
          completed (timed m now m.config.erase_timeout_ms) address n result,
          notify m w result,
          result,
        )
      ]

-- `memcmp` of the first `n` bytes of two buffers, which have so many.
unfoldable pub equal_bytes : ℕ → List ℕ → List ℕ → Bool
equal_bytes zero xs ys = true
equal_bytes (suc n) (x ∷ xs) (y ∷ ys) = x == y && equal_bytes n xs ys
equal_bytes (suc n) _ _ = false

abbrev pub verify_buffer_size : ℕ
verify_buffer_size = 256

-- `chunk_size`
unfoldable pub chunk_size : ℕ → ℕ
chunk_size n = if ltb verify_buffer_size n then verify_buffer_size else n

-- The loop of `Memory_Manager_Verify`, with the buffer that it reads to: the result, or `none`
-- without fuel.
unfoldable pub verify_loop :
    ℕ → List MemoryAreaDef → Memory → ℕ → List ℕ → List ℕ → ℕ → Option MemoryResult
verify_loop zero xs memory address buffer bytes n =
    if n == 0 then some memory_result_success else none
verify_loop (suc fuel) xs memory address buffer bytes n =
    let chunk = chunk_size n in
    let (buffer', result) = platform_read_memory xs memory address buffer chunk in
    let rest =
      verify_loop fuel xs memory (u32 (address + chunk)) buffer' (drop chunk bytes) (n - chunk) in
    if n == 0 then some memory_result_success else elim result [
      | memory_result_success ↦
          if equal_bytes chunk buffer' bytes then rest else some memory_result_verify_failed
      | other ↦ some other
    ]

-- The last result that `Memory_Manager_Verify` leaves: a success leaves the old one.
abbrev pub verified : {W : Type 0} → MemoryManager W → MemoryResult → MemoryManager W
verified m memory_result_success = m
verified m result = record m { last_result = result }

-- `Memory_Manager_Verify`, with what the buffer on the stack holds before; a round of the loop
-- takes at least one byte.
unfoldable pub verify :
    {W : Type 0}
    → MemoryManager W
    → Memory
    → ℕ
    → List ℕ
    → List ℕ
    → Option (MemoryManager W × MemoryResult)
verify m memory address buffer bytes =
    let n = length bytes in
    elim (refusal m address n memory_access_read) [
      | some refused ↦ some (m, refused)
      | none ↦ elim (verify_loop n (areas m) memory address buffer bytes n) [
        | none ↦ none
        | some result ↦ some (verified m result, result)
      ]
    ]

-- `Memory_Manager_GetAreaType`
unfoldable pub get_area_type : {W : Type 0} → MemoryManager W → ℕ → MemoryAreaType
get_area_type m address = elim (find_memory_area (areas m) address) [
  | none ↦ memory_area_ram
  | some (i, area) ↦ area.type
]

-- `Memory_Manager_AbortOperation`
unfoldable pub abort_operation : {W : Type 0} → MemoryManager W → MemoryManager W
abort_operation m = record m { is_busy = false; last_result = memory_result_error }

-- `Memory_Manager_GetProgress`
unfoldable pub get_progress : {W : Type 0} → MemoryManager W → ℕ
get_progress m =
    let total_bytes = u32 (m.remaining_bytes + sub32 m.current_address m.current_address) in
    if not m.is_busy || m.remaining_bytes == 0
    then 100
    else u32 (sub32 total_bytes m.remaining_bytes * 100) / total_bytes
