-- ===== src/DiagMemory/Bounds.antt =====
-- Accesses stay inside one area of the configuration.
use cant.Prelude.{
  ℕ, suc, ◌+◌, ◌-◌, ◌<◌, ◌≤◌, ◌≡◌, ◌≢◌, ◌⊎◌, inl, inr, refl, true, ◌&&◌, Option, none, some, List,
  [], ◌∷◌, ltb, leb, ◌==◌, ==_iff, length, get_elem?, arith, ap, sym, ◌∙◌, Bool-cases, Option-cases,
}
use mathlib.Core.Path.{subst}
use Prim.Native.Nat.{bit_and}
use cant.Prelude.Words.{u32, sub32, u32_mod}
use cant.DiagMemory.{
  MemoryAreaDef, MemoryAreaType, memory_area_ram, memory_area_rom, memory_area_flash,
  memory_area_eeprom, memory_area_mirror, memory_area_other, MemoryResult, memory_result_success,
  MemoryManager, Memory, areas, find_memory_area, same_area, validate_address_range,
  check_access_rights, memory_access_write, store, write_area, platform_write_memory,
}
use cant.DiagMemory.Calls.{refusal, write}

-- What a search says of an address.
abbrev pub Located : List MemoryAreaDef → ℕ → Option (ℕ × MemoryAreaDef) → Type 0
Located xs address none = Unit
Located xs address (some (i, area)) =
    (get_elem? xs i ≡ some area)
    × (area.start_address ≤ address)
    × (address < area.start_address + area.size)

abbrev next : Option (ℕ × MemoryAreaDef) → Option (ℕ × MemoryAreaDef)
next o = elim o [ none ↦ none | some (i, found) ↦ some (suc i, found) ]

next-Located :
    (x : MemoryAreaDef) (xs : List MemoryAreaDef) (address : ℕ) (o : Option (ℕ × MemoryAreaDef))
    → Located xs address o
    → Located (x ∷ xs) address (next o)
next-Located x xs address none h = tt
next-Located x xs address (some (i, area)) h = h

pub find_memory_area-Located :
    (xs : List MemoryAreaDef) (address : ℕ) → Located xs address (find_memory_area xs address)
unfolding find_memory_area
find_memory_area-Located [] address = tt
find_memory_area-Located (x ∷ xs) address =
    elim (Bool-cases
      (leb x.start_address address && ltb address (u32 (x.start_address + x.size)))) [
        | inl here ↦ rw here (refl, ground arith, ground arith)
        | inr not_here ↦ rw not_here (
            next-Located x xs address (find_memory_area xs address)
              (find_memory_area-Located xs address))
      ]

same_area-some :
    (o p : Option (ℕ × MemoryAreaDef))
    → same_area o p ≡ true
    → (i : ℕ) × (a : MemoryAreaDef) × (b : MemoryAreaDef) × (o ≡ some (i, a)) × (p ≡ some (i, b))
same_area-some none p h = ground arith
same_area-some (some (i, a)) none h = ground arith
same_area-some (some (i, a)) (some (j, b)) h =
    let e : j ≡ i = sym ((==_iff i j).0 h) in (i, a, b, refl, ap (λ k. some (k, b)) e)

-- A range that does not reach past 2^32 and is valid lies in the area of its first address.
pub validate_address_range_lem :
    (xs : List MemoryAreaDef) (address n : ℕ)
    → 0 < n
    → address + n ≤ u32_mod
    → validate_address_range xs address n ≡ true
    → (i : ℕ) × (area : MemoryAreaDef) × (find_memory_area xs address ≡ some (i, area))
      × (get_elem? xs i ≡ some area)
      × (area.start_address ≤ address)
      × (address + n ≤ area.start_address + area.size)
unfolding validate_address_range
validate_address_range_lem xs address n pos fits h =
    let last : sub32 (u32 (address + n)) 1 ≡ address + n - 1 = omega arith in
    let (i, a, b, first, final) =
      same_area-some (find_memory_area xs address)
        (find_memory_area xs (sub32 (u32 (address + n)) 1)) h in
    let at_first = subst (Located xs address) first (find_memory_area-Located xs address) in
    let at_last =
      subst (Located xs (sub32 (u32 (address + n)) 1)) final
        (find_memory_area-Located xs (sub32 (u32 (address + n)) 1)) in
    let both : some b ≡ some a = sym (at_last.0) ∙ at_first.0 in
    let same : b ≡ a = cc in
    let size : b.size ≡ a.size = ap (λ (x : MemoryAreaDef). x.size) same in
    let begin : b.start_address ≡ a.start_address =
      ap (λ (x : MemoryAreaDef). x.start_address) same in
    (i, a, first, at_first.0, at_first.1, omega (arith, at_last.2))

-- Outside the bytes that are copied the memory is as it was.
pub store-outside :
    (memory : Memory) (address : ℕ) (bytes : List ℕ) (j : ℕ)
    → ((address ≤ j) × (j < address + length bytes)) ⊎ (store memory address bytes j ≡ memory j)
unfolding store
store-outside memory address [] j = inr refl
store-outside memory address (x ∷ xs) j = ground (arith, store-outside memory (address + 1) xs j)

write_area-outside :
    (type : MemoryAreaType) (memory : Memory) (address : ℕ) (bytes : List ℕ) (j : ℕ)
    → ((address ≤ j) × (j < address + length bytes))
      ⊎ ((write_area type memory address bytes).0 j ≡ memory j)
write_area-outside memory_area_ram memory address bytes j = store-outside memory address bytes j
write_area-outside memory_area_flash memory address bytes j = inr refl
write_area-outside memory_area_eeprom memory address bytes j = inr refl
write_area-outside memory_area_rom memory address bytes j = inr refl
write_area-outside memory_area_mirror memory address bytes j = inr refl
write_area-outside (memory_area_other k) memory address bytes j = inr refl

-- The rights and the type that a write asks for.
abbrev pub Writable : MemoryAreaDef → Type 0
Writable area =
    (bit_and area.access_rights memory_access_write ≡ memory_access_write)
    × (area.type ≢ memory_area_rom)

check_access_rights_lem :
    (xs : List MemoryAreaDef) (address rights i : ℕ) (area : MemoryAreaDef)
    → find_memory_area xs address ≡ some (i, area)
    → check_access_rights xs address rights ≡ true
    → bit_and area.access_rights rights ≡ rights
unfolding check_access_rights
check_access_rights_lem xs address rights i area e h =
    let opened : check_access_rights xs address rights
        ≡ (bit_and area.access_rights rights == rights) =
      rw (check_access_rights, e) refl in
    (==_iff (bit_and area.access_rights rights) rights).0 (sym opened ∙ h)

platform_write_memory_lem :
    (xs : List MemoryAreaDef) (memory : Memory) (address i : ℕ) (bytes : List ℕ)
    (area : MemoryAreaDef)
    → find_memory_area xs address ≡ some (i, area)
    → platform_write_memory xs memory address bytes ≡ write_area area.type memory address bytes
unfolding platform_write_memory
platform_write_memory_lem xs memory address i bytes area e = rw (platform_write_memory, e) refl

write_area-ne :
    (type : MemoryAreaType) (memory : Memory) (address : ℕ) (bytes : List ℕ)
    → (write_area type memory address bytes).1 ≡ memory_result_success
    → type ≢ memory_area_rom
write_area-ne type memory address bytes h e = ground (arith, h, e)

module _ {W : Type 0} where
  pub refusal-none :
      (m : MemoryManager W) (address n rights : ℕ)
      → refusal m address n rights ≡ none
      → (0 < n)
        × (validate_address_range (areas m) address n ≡ true)
        × (check_access_rights (areas m) address rights ≡ true)
  unfolding refusal
  refusal-none m address n rights h = ground (arith, h)

  refusal-ne :
      (m : MemoryManager W) (address n rights : ℕ)
      → refusal m address n rights ≢ some memory_result_success
  unfolding refusal
  refusal-ne m address n rights h = ground (arith, h)

  write_refused :
      (m : MemoryManager W) (w : W) (memory : Memory) (now address : ℕ) (bytes : List ℕ)
      (r : MemoryResult)
      → refusal m address (length bytes) memory_access_write ≡ some r
      → write m w memory now address bytes ≡ (m, w, memory, r)
  unfolding write
  write_refused m w memory now address bytes r h = rw (write, h) refl

  write_done :
      (m : MemoryManager W) (w : W) (memory : Memory) (now address : ℕ) (bytes : List ℕ)
      → refusal m address (length bytes) memory_access_write ≡ none
      → ((write m w memory now address bytes).2
          ≡ (platform_write_memory (areas m) memory address bytes).0)
        × ((write m w memory now address bytes).3
            ≡ (platform_write_memory (areas m) memory address bytes).1)
  unfolding write
  write_done m w memory now address bytes h = (rw (write, h) refl, rw (write, h) refl)

  -- A `Memory_Manager_Write` that succeeds, of bytes whose range does not reach past 2^32, has
  -- written into one area of the configuration, which has the right to be written and is not ROM;
  -- the whole range lies in it, and every byte of the memory outside the range is as it was.
  pub write-Writable :
      (m : MemoryManager W) (w : W) (memory : Memory) (now address : ℕ) (bytes : List ℕ) (j : ℕ)
      → address + length bytes ≤ u32_mod
      → (write m w memory now address bytes).3 ≡ memory_result_success
      → (i : ℕ) × (area : MemoryAreaDef) × (get_elem? (areas m) i ≡ some area)
        × (area.start_address ≤ address)
        × (address + length bytes ≤ area.start_address + area.size)
        × Writable area
        × (((address ≤ j) × (j < address + length bytes))
            ⊎ ((write m w memory now address bytes).2 j ≡ memory j))
  write-Writable m w memory now address bytes j fits success =
      let n = length bytes in
      elim (Option-cases (refusal m address n memory_access_write)) [
        | inl open_to ↦
            let (pos, valid, granted) = refusal-none m address n memory_access_write open_to in
            let (i, area, found, at, low, high) =
              validate_address_range_lem (areas m) address n pos fits valid in
            let (written, result) = write_done m w memory now address bytes open_to in
            let area_write =
              platform_write_memory_lem (areas m) memory address i bytes area found in
            let ok : (write_area area.type memory address bytes).1 ≡ memory_result_success =
              sym (result ∙ ap (λ x. x.1) area_write) ∙ success in
            let same : (write m w memory now address bytes).2 j
                ≡ (write_area area.type memory address bytes).0 j =
              ap (λ (f : Memory). f j) (written ∙ ap (λ x. x.0) area_write) in
            (
              i,
              area,
              at,
              low,
              high,
              (
                check_access_rights_lem (areas m) address memory_access_write i area found granted,
                write_area-ne area.type memory address bytes ok,
              ),
              elim (write_area-outside area.type memory address bytes j) [
                | inl inside ↦ inl inside
                | inr kept ↦ inr (same ∙ kept)
              ],
            )
        | inr (r, refused) ↦ absurd (
            refusal-ne m address n memory_access_write (
              refused
              ∙ ap some (
                  sym (ap (λ x. x.3) (write_refused m w memory now address bytes r refused))
                  ∙ success)))
      ]
