-- ===== src/DiagMemory.antt =====
-- The memory access of src/runtime/diagnostic/memory_manager.c and memory_manager.h. The static
-- `memory_manager` is a record that each function takes and returns, as is the memory: the byte at
-- each address. `W` is the state that the callback works on. `now` is the tick count that the timer
-- reads. A call under the lock is one step. The buffers that callers pass are not NULL, and a range
-- that is copied does not wrap past the last address.
pub mod Calls
pub mod Bounds
pub mod Loads
pub mod Verify
mod Tests
use cant.Prelude.{
  ℕ, zero, suc, ◌+◌, ◌-◌, Bool, true, false, not, ◌&&◌, ◌||◌, Option, none, some, List, [], ◌∷◌,
  ◌++◌, ltb, leb, ◌==◌, if◌then◌else◌, take, drop, length,
}
use Prim.Native.Nat.{bit_and}
use cant.Prelude.Words.{u32, sub32}
use cant.Prelude.Table.{entry_of}
use cant.Timer.{Timer, start}

-- `MemoryAreaType`; the last constructor is a value that the enumeration does not name.
pub data MemoryAreaType : Type 0 where
  memory_area_ram : MemoryAreaType
  memory_area_flash : MemoryAreaType
  memory_area_eeprom : MemoryAreaType
  memory_area_rom : MemoryAreaType
  memory_area_mirror : MemoryAreaType
  memory_area_other : ℕ → MemoryAreaType

-- `MemoryAccessRight`
abbrev pub memory_access_read : ℕ
memory_access_read = 0x01

abbrev pub memory_access_write : ℕ
memory_access_write = 0x02

-- `MemoryAreaDef`
pub record MemoryAreaDef : Type 0 where
  pub start_address : ℕ
  pub size : ℕ
  pub type : MemoryAreaType
  pub access_rights : ℕ
  pub security_level : ℕ

-- `MemoryResult`
pub data MemoryResult : Type 0 where
  memory_result_success : MemoryResult
  memory_result_invalid_address : MemoryResult
  memory_result_access_denied : MemoryResult
  memory_result_write_failed : MemoryResult
  memory_result_read_failed : MemoryResult
  memory_result_verify_failed : MemoryResult
  memory_result_busy : MemoryResult
  memory_result_error : MemoryResult

-- `MemoryManagerConfig`; the areas are the list of `area_count` areas.
pub record MemoryManagerConfig (W : Type 0) : Type 0 where
  pub memory_areas : Option (List MemoryAreaDef)
  pub write_timeout_ms : ℕ
  pub erase_timeout_ms : ℕ
  pub operation_complete_callback : Option (W → MemoryResult → W)

-- `MemoryManager`, with the members of its `state`.
pub record MemoryManager (W : Type 0) : Type 0 where
  pub config : MemoryManagerConfig W
  pub is_busy : Bool
  pub current_address : ℕ
  pub remaining_bytes : ℕ
  pub last_result : MemoryResult
  pub operation_timer : Timer
  pub initialized : Bool

-- The areas that the search visits.
abbrev pub areas : {W : Type 0} → MemoryManager W → List MemoryAreaDef
areas m = elim (m.config.memory_areas) [ none ↦ [] | some xs ↦ xs ]

-- `find_memory_area`, with the index that tells two areas apart.
unfoldable pub find_memory_area : List MemoryAreaDef → ℕ → Option (ℕ × MemoryAreaDef)
find_memory_area [] address = none
find_memory_area (x ∷ xs) address =
    let rest = find_memory_area xs address in
    if leb x.start_address address && ltb address (u32 (x.start_address + x.size))
    then some (0, x)
    else elim rest [ none ↦ none | some (i, found) ↦ some (suc i, found) ]

-- Whether two searches have given the same area.
abbrev pub same_area : Option (ℕ × MemoryAreaDef) → Option (ℕ × MemoryAreaDef) → Bool
same_area (some (i, a)) (some (j, b)) = i == j
same_area _ _ = false

-- `validate_address_range`
unfoldable pub validate_address_range : List MemoryAreaDef → ℕ → ℕ → Bool
validate_address_range xs address n =
    same_area (find_memory_area xs address) (find_memory_area xs (sub32 (u32 (address + n)) 1))

-- `check_access_rights`
unfoldable pub check_access_rights : List MemoryAreaDef → ℕ → ℕ → Bool
check_access_rights xs address required_rights = elim (find_memory_area xs address) [
  | none ↦ false
  | some (i, area) ↦ bit_and area.access_rights required_rights == required_rights
]

-- The byte at each address.
abbrev pub Memory : Type 0
Memory = ℕ → ℕ

-- The bytes from an address on.
unfoldable pub load : Memory → ℕ → ℕ → List ℕ
load memory address zero = []
load memory address (suc n) = memory address ∷ load memory (address + 1) n

-- The memory after a copy of bytes to an address.
unfoldable pub store : Memory → ℕ → List ℕ → Memory
store memory address [] = memory
store memory address (x ∷ xs) =
    let rest = store memory (address + 1) xs in λ j. if j == address then x else rest j

-- The copy to the caller's buffer by the type of the area: only RAM and ROM are read.
abbrev pub read_area : MemoryAreaType → Memory → ℕ → List ℕ → ℕ → List ℕ × MemoryResult
read_area memory_area_ram memory address buffer n =
    (load memory address n ++ drop n buffer, memory_result_success)
read_area memory_area_rom memory address buffer n =
    (load memory address n ++ drop n buffer, memory_result_success)
read_area (memory_area_other k) memory address buffer n = (buffer, memory_result_error)
read_area _ memory address buffer n = (buffer, memory_result_success)

-- `platform_read_memory` of `n` bytes to a buffer.
unfoldable pub platform_read_memory :
    List MemoryAreaDef → Memory → ℕ → List ℕ → ℕ → List ℕ × MemoryResult
platform_read_memory xs memory address buffer n = elim (find_memory_area xs address) [
  | none ↦ (buffer, memory_result_invalid_address)
  | some (i, area) ↦ read_area area.type memory address buffer n
]

-- The write by the type of the area: only RAM is written.
abbrev pub write_area : MemoryAreaType → Memory → ℕ → List ℕ → Memory × MemoryResult
write_area memory_area_ram memory address bytes =
    (store memory address bytes, memory_result_success)
write_area memory_area_rom memory address bytes = (memory, memory_result_access_denied)
write_area (memory_area_other k) memory address bytes = (memory, memory_result_error)
write_area _ memory address bytes = (memory, memory_result_success)

-- `platform_write_memory`
unfoldable pub platform_write_memory :
    List MemoryAreaDef → Memory → ℕ → List ℕ → Memory × MemoryResult
platform_write_memory xs memory address bytes = elim (find_memory_area xs address) [
  | none ↦ (memory, memory_result_invalid_address)
  | some (i, area) ↦ write_area area.type memory address bytes
]

abbrev pub erase_area : MemoryAreaType → MemoryResult
erase_area memory_area_flash = memory_result_success
erase_area memory_area_eeprom = memory_result_success
erase_area _ = memory_result_access_denied

-- `platform_erase_memory`
unfoldable pub platform_erase_memory : List MemoryAreaDef → ℕ → MemoryResult
platform_erase_memory xs address = elim (find_memory_area xs address) [
  | none ↦ memory_result_invalid_address
  | some (i, area) ↦ erase_area area.type
]
