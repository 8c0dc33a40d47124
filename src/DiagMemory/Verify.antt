-- ===== src/DiagMemory/Verify.antt =====
-- `Memory_Manager_Verify` compares the whole range.
use cant.Prelude.{
  ℕ, zero, suc, ◌+◌, ◌-◌, ◌<◌, ◌≤◌, ◌≡◌, refl, Bool, false, Option, none, some, List, [], ◌∷◌, ◌++◌,
  ◌==◌, if◌then◌else◌, take, drop, length, length-drop, arith, ◌∙◌,
}
use cant.Prelude.Words.{u32, u32_mod}
use cant.DiagMemory.{
  MemoryAreaDef, memory_area_ram, MemoryResult, memory_result_success, memory_result_verify_failed,
  MemoryManager, Memory, areas, load, store, find_memory_area, platform_read_memory,
  platform_write_memory, memory_access_read, memory_access_write,
}
use cant.DiagMemory.Calls.{
  refusal, chunk_size, verify_loop, verified, verify, write, completed, timed, notify,
}
use cant.DiagMemory.Bounds.{refusal-none}
use cant.DiagMemory.Loads.{holds, equal_bytes-load, holds-split, holds-store}

-- A search that gives RAM.
abbrev pub InRam : Option (ℕ × MemoryAreaDef) → Type 0
InRam none = ⊥
InRam (some (i, area)) = area.type ≡ memory_area_ram

-- Every address of the range is found in RAM.
pub record IsRam (xs : List MemoryAreaDef) (address n : ℕ) : Type 0 where
  pub located : (j : ℕ) → address ≤ j → j < address + n → InRam (find_memory_area xs j)
  pub below : address + n < u32_mod

platform_read_memory_ram :
    (xs : List MemoryAreaDef) (memory : Memory) (address n : ℕ) (buffer : List ℕ)
    (o : Option (ℕ × MemoryAreaDef))
    → find_memory_area xs address ≡ o
    → InRam o
    → platform_read_memory xs memory address buffer n
      ≡ (load memory address n ++ drop n buffer, memory_result_success)
unfolding platform_read_memory
platform_read_memory_ram xs memory address n buffer none e h = absurd h
platform_read_memory_ram xs memory address n buffer (some (i, area)) e h =
    rw (platform_read_memory, e, h) refl

IsRam-drop :
    (xs : List MemoryAreaDef) (address n k : ℕ)
    → k ≤ n
    → IsRam xs address n
    → IsRam xs (address + k) (n - k)
IsRam-drop xs address n k h r = record {
  located = λ j low high. r.located j (omega arith) (omega arith);
  below = omega (arith, r.below);
}

abbrev pub outcome : Bool → MemoryResult
outcome same = if same then memory_result_success else memory_result_verify_failed

chunk_size_lem : (n : ℕ) → (chunk_size n ≤ n) × (0 < n → 0 < chunk_size n)
unfolding chunk_size
chunk_size_lem n = ground arith

-- A round of the loop on RAM.
verify_round :
    (fuel : ℕ) (xs : List MemoryAreaDef) (memory : Memory) (address n : ℕ) (buffer bytes : List ℕ)
    → 0 < n
    → n ≤ length bytes
    → InRam (find_memory_area xs address)
    → let k = chunk_size n in
      verify_loop (suc fuel) xs memory address buffer bytes n ≡ (
        if holds memory address (take k bytes)
        then verify_loop fuel xs memory
            (u32 (address + k))
            (load memory address k ++ drop k buffer)
            (drop k bytes)
            (n - k)
        else some memory_result_verify_failed)
unfolding verify_loop
verify_round fuel xs memory address n buffer bytes pos le ram =
    let more : (n == 0) ≡ false = ground arith in
    let k = chunk_size n in
    let enough : k ≤ length bytes = omega (arith, (chunk_size_lem n).0) in
    let got =
      platform_read_memory_ram xs memory address k buffer (find_memory_area xs address) refl ram in
    rw (more, got, got, equal_bytes-load memory address k (drop k buffer) bytes enough) refl

verify_loop_lem :
    (fuel : ℕ) (xs : List MemoryAreaDef) (memory : Memory) (address n : ℕ) (buffer bytes : List ℕ)
    → length bytes ≡ n
    → n ≤ fuel
    → IsRam xs address n
    → verify_loop fuel xs memory address buffer bytes n
      ≡ some (outcome (holds memory address bytes))
unfolding verify_loop
verify_loop_lem zero xs memory address n buffer [] e h r = ground arith
verify_loop_lem zero xs memory address n buffer (x ∷ bytes) e h r = absurd (omega arith)
verify_loop_lem (suc fuel) xs memory address n buffer [] e h r = ground arith
verify_loop_lem (suc fuel) xs memory address n buffer (x ∷ bytes) e h r =
    let k = chunk_size n in
    let (le, pos) = chunk_size_lem n in
    let first = r.located address (omega arith) (omega arith) in
    let wrapped : u32 (address + k) ≡ address + k = omega (arith, r.below) in
    let rest =
      verify_loop_lem fuel xs memory (address + k) (n - k) (load memory address k ++ drop k buffer)
        (drop k (x ∷ bytes)) (omega (arith, length-drop k (x ∷ bytes)))
        (omega (arith, pos (omega arith))) (IsRam-drop xs address n k le r) in
    verify_round fuel xs memory address n buffer (x ∷ bytes) (omega arith) (omega arith) first
    ∙ ground (arith, holds-split memory address k (x ∷ bytes), wrapped, rest)

-- On a range in RAM that it does not refuse, `Memory_Manager_Verify` ends, and gives success if the
-- memory holds the bytes there and otherwise a failed verification, which is then the last result.
pub verify_lem :
    {W : Type 0} (m : MemoryManager W) (memory : Memory) (address : ℕ) (buffer bytes : List ℕ)
    → refusal m address (length bytes) memory_access_read ≡ none
    → IsRam (areas m) address (length bytes)
    → verify m memory address buffer bytes
      ≡ (let result = outcome (holds memory address bytes) in some (verified m result, result))
unfolding verify
verify_lem m memory address buffer bytes open_to ram =
    rw
      (
        verify,
        open_to,
        verify_loop_lem (length bytes) (areas m) memory address (length bytes) buffer bytes refl
            (omega arith) ram,
      )
      refl

platform_write_memory_ram :
    (xs : List MemoryAreaDef) (memory : Memory) (address : ℕ) (bytes : List ℕ)
    (o : Option (ℕ × MemoryAreaDef))
    → find_memory_area xs address ≡ o
    → InRam o
    → platform_write_memory xs memory address bytes
      ≡ (store memory address bytes, memory_result_success)
unfolding platform_write_memory
platform_write_memory_ram xs memory address bytes none e h = absurd h
platform_write_memory_ram xs memory address bytes (some (i, area)) e h =
    rw (platform_write_memory, e, h) refl

module _ {W : Type 0} where
  refusal-completed :
      (m : MemoryManager W) (now timeout address n rights : ℕ) (result : MemoryResult)
      → refusal m address n rights ≡ none
      → refusal (completed (timed m now timeout) address n result) address n rights ≡ none
  unfolding refusal
  refusal-completed m now timeout address n rights result h = ground (arith, h)

  write_ram :
      (m : MemoryManager W) (w : W) (memory : Memory) (now address : ℕ) (bytes : List ℕ)
      → refusal m address (length bytes) memory_access_write ≡ none
      → InRam (find_memory_area (areas m) address)
      → write m w memory now address bytes ≡ (
        completed
            (timed m now m.config.write_timeout_ms)
            address
            (length bytes)
            memory_result_success,
        notify m w memory_result_success,
        store memory address bytes,
        memory_result_success,
      )
  unfolding write
  write_ram m w memory now address bytes open_to ram =
      let done =
        platform_write_memory_ram (areas m) memory address bytes
          (find_memory_area (areas m) address) refl ram in
      rw (write, open_to, done) refl

  -- Bytes that go to a range in RAM which the manager lets be written and read are written, and
  -- `Memory_Manager_Verify` of the same bytes afterwards gives success and changes nothing.
  pub verify-write :
      (m : MemoryManager W) (w : W) (memory : Memory) (now address : ℕ) (buffer bytes : List ℕ)
      → refusal m address (length bytes) memory_access_write ≡ none
      → refusal m address (length bytes) memory_access_read ≡ none
      → IsRam (areas m) address (length bytes)
      → let (m', w', memory', result) = write m w memory now address bytes in
        (result ≡ memory_result_success)
        × (verify m' memory' address buffer bytes ≡ some (m', memory_result_success))
  verify-write m w memory now address buffer bytes may_write may_read ram =
      let pos = (refusal-none m address (length bytes) memory_access_write may_write).0 in
      let first = ram.located address (omega arith) (omega arith) in
      let m' =
        completed (timed m now m.config.write_timeout_ms) address (length bytes)
          memory_result_success in
      let still =
        refusal-completed m now m.config.write_timeout_ms address (length bytes) memory_access_read
          memory_result_success may_read in
      rw
        (
          write_ram m w memory now address bytes may_write first,
          verify_lem m' (store memory address bytes) address buffer bytes still ram,
          holds-store memory address bytes,
        )
        (refl, refl)
