-- ===== src/DiagMemory/Loads.antt =====
-- Bytes compared with, loaded from and stored to the memory.
use cant.Prelude.{
  ℕ, zero, suc, ◌+◌, ◌<◌, ◌≤◌, ◌≡◌, refl, Bool, true, ◌&&◌, List, [], ◌∷◌, ◌++◌, ◌==◌, ==_iff, take,
  drop, length, arith, ap,
}
use cant.DiagMemory.{Memory, load, store}
use cant.DiagMemory.Calls.{equal_bytes}

-- Whether the memory holds bytes at an address.
abbrev pub holds : Memory → ℕ → List ℕ → Bool
holds memory address [] = true
holds memory address (x ∷ xs) = memory address == x && holds memory (address + 1) xs

pub equal_bytes-load :
    (memory : Memory) (address k : ℕ) (rest bytes : List ℕ)
    → k ≤ length bytes
    → equal_bytes k (load memory address k ++ rest) bytes ≡ holds memory address (take k bytes)
unfolding equal_bytes load
equal_bytes-load memory address zero rest bytes h = refl
equal_bytes-load memory address (suc k) rest [] h = absurd (omega arith)
equal_bytes-load memory address (suc k) rest (x ∷ bytes) h =
    rw (equal_bytes-load memory (address + 1) k rest bytes (omega arith)) refl

pub holds-split :
    (memory : Memory) (address k : ℕ) (bytes : List ℕ)
    → holds memory address bytes
      ≡ (holds memory address (take k bytes) && holds memory (address + k) (drop k bytes))
holds-split memory address zero bytes =
    let e : address ≡ address + 0 = omega arith in ap (λ a. holds memory a bytes) e
holds-split memory address (suc k) [] = refl
holds-split memory address (suc k) (x ∷ bytes) =
    let e : address + 1 + k ≡ address + suc k = omega arith in
    rw (holds-split memory (address + 1) k bytes, e) (ground arith)

-- A store at a later address leaves a byte alone.
store-before :
    (memory : Memory) (address j : ℕ) (bytes : List ℕ)
    → j < address
    → store memory address bytes j ≡ memory j
unfolding store
store-before memory address j [] h = refl
store-before memory address j (x ∷ bytes) h =
    ground (arith, store-before memory (address + 1) j bytes)

holds_same :
    (memory memory' : Memory) (address : ℕ) (bytes : List ℕ)
    → ((j : ℕ) → address ≤ j → memory' j ≡ memory j)
    → holds memory' address bytes ≡ holds memory address bytes
holds_same memory memory' address [] h = refl
holds_same memory memory' address (x ∷ bytes) h =
    rw
      (
        h address (omega arith),
        holds_same memory memory' (address + 1) bytes (λ j le. h j (omega arith)),
      )
      refl

store-first :
    (memory : Memory) (address x : ℕ) (bytes : List ℕ)
    → store memory address (x ∷ bytes) address ≡ x
unfolding store
store-first memory address x bytes = rw ((==_iff address address).1 refl) refl

store-later :
    (memory : Memory) (address x j : ℕ) (bytes : List ℕ)
    → address + 1 ≤ j
    → store memory address (x ∷ bytes) j ≡ store memory (address + 1) bytes j
unfolding store
store-later memory address x j bytes h = ground arith

-- The memory holds what has been stored.
pub holds-store :
    (memory : Memory) (address : ℕ) (bytes : List ℕ)
    → holds (store memory address bytes) address bytes ≡ true
holds-store memory address [] = refl
holds-store memory address (x ∷ bytes) =
    rw
      (
        store-first memory address x bytes,
        (==_iff x x).1 refl,
        holds_same (store memory (address + 1) bytes) (store memory address (x ∷ bytes))
            (address + 1) bytes (λ j le. store-later memory address x j bytes le),
      )
      (holds-store memory (address + 1) bytes)
