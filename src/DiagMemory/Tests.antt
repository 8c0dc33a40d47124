-- ===== src/DiagMemory/Tests.antt =====
-- The theorems on memory access at concrete inputs.
use cant.Prelude.{
  ℕ, ◌+◌, ◌<◌, ◌≤◌, ◌≡◌, ◌⊎◌, refl, true, none, some, List, [], ◌∷◌, arith, get_elem?,
}
use cant.DiagMemory.{
  MemoryAreaDef, memory_area_ram, memory_area_rom, memory_result_success, MemoryManager, Memory,
  areas, find_memory_area, validate_address_range, check_access_rights, platform_write_memory,
}
use cant.DiagMemory.Calls.{refusal, deinit, write, verify}
use cant.DiagMemory.Bounds.{Writable, write-Writable}
use cant.DiagMemory.Verify.{IsRam, verify_lem, verify-write, outcome}
use cant.DiagMemory.Loads.{holds}

abbrev rom : MemoryAreaDef
rom = record {
  start_address = 0;
  size = 0x100;
  type = memory_area_rom;
  access_rights = 1;
  security_level = 0;
}

abbrev ram : MemoryAreaDef
ram = record {
  start_address = 0x1000;
  size = 0x1000;
  type = memory_area_ram;
  access_rights = 3;
  security_level = 0;
}

abbrev manager : MemoryManager ℕ
manager = record deinit {
  config = record {
    memory_areas = some (rom ∷ ram ∷ []);
    write_timeout_ms = 10;
    erase_timeout_ms = 10;
    operation_complete_callback = none;
  };
  initialized = true;
}

abbrev memory : Memory
memory j = 0

abbrev bytes : List ℕ
bytes = 1 ∷ 2 ∷ 3 ∷ []

refused_not : (refusal manager 0x1800 3 1 ≡ none) × (refusal manager 0x1800 3 2 ≡ none)
unfolding deinit refusal validate_address_range find_memory_area check_access_rights
refused_not = (refl, refl)

bytes-IsRam : IsRam (areas manager) 0x1800 3
unfolding deinit find_memory_area
bytes-IsRam = record { located = λ j low high. ground arith; below = omega arith }

write-Writable_example :
    (i : ℕ) × (area : MemoryAreaDef) × (get_elem? (areas manager) i ≡ some area)
    × (area.start_address ≤ 0x1800)
    × (0x1803 ≤ area.start_address + area.size)
    × Writable area
    × (((0x1800 ≤ 0x1803) × (0x1803 < 0x1803))
        ⊎ ((write manager 0 memory 5 0x1800 bytes).2 0x1803 ≡ memory 0x1803))
unfolding deinit refusal validate_address_range find_memory_area check_access_rights write
    platform_write_memory
write-Writable_example = write-Writable manager 0 memory 5 0x1800 bytes 0x1803 (omega arith) refl

verify_lem_example : verify manager memory 0x1800 [] bytes ≡ (
    let result = outcome (holds memory 0x1800 bytes) in
    some (record manager { last_result = result }, result))
verify_lem_example = verify_lem manager memory 0x1800 [] bytes refused_not.0 bytes-IsRam

verify-write_example :
    let (m', w', memory', result) = write manager 0 memory 5 0x1800 bytes in
    (result ≡ memory_result_success)
    × (verify m' memory' 0x1800 [] bytes ≡ some (m', memory_result_success))
verify-write_example =
    verify-write manager 0 memory 5 0x1800 [] bytes refused_not.1 refused_not.0 bytes-IsRam
