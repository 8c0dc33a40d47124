-- ===== src/Prelude/Table.antt =====
-- Tables in C arrays: an array whose first `n` entries are in use, each with a key.
pub mod Arrays
use Prim.Native.Nat.{ℕ, zero, suc, ◌+◌, ◌-◌, ◌<◌, ◌≤◌}
use mathlib.Core.Path.{◌≡◌, refl, sym, ap, ◌∙◌, subst}
use mathlib.Core.Logic.{◌≢◌, inl, inr}
use mathlib.Core.Bool.{Bool, false, true}
use mathlib.Core.Option.{Option, none, some}
use mathlib.Core.List.{List, [], ◌∷◌, ◌++◌, append_assoc, append-nil}
use native.Mathlib.Omega.{arith}
use cant.Prelude.Tests.{ltb, ◌==◌, if◌then◌else◌, Bool-cases, ltb→lt, ==_iff}
use cant.Prelude.Lists.{
  length, get_elem?, set, take, drop, remove, length-set, length-take, length-drop, length-append,
  take-append_le, take_all,
}

-- The entry of a search.
abbrev pub entry_of : {A : Type 0} → Option (ℕ × A) → Option A
entry_of none = none
entry_of (some (i, a)) = some a

abbrev pub is_some : {A : Type 0} → Option A → Bool
is_some none = false
is_some (some a) = true

-- `memmove` of the entries behind index `i` of an array with `n` entries in use, where there are
-- any.
unfoldable pub shift_down : {A : Type 0} → List A → ℕ → ℕ → List A
shift_down xs n i =
    if ltb i (n - 1)
    then take i xs ++ (take (n - i - 1) (drop (i + 1) xs) ++ drop (n - 1) xs)
    else xs

module _ {A : Type 0} (key : A → ℕ) where
  -- The loop that looks for a key: the first entry that has it, and its index.
  unfoldable pub find_by : ℕ → List A → Option (ℕ × A)
  find_by id [] = none
  find_by id (x ∷ xs) =
      let rest = find_by id xs in
      if key x == id
      then some (0, x)
      else elim rest [ none ↦ none | some (i, found) ↦ some (suc i, found) ]

  -- The first entry with a key.
  unfoldable pub lookup : ℕ → List A → Option A
  lookup id [] = none
  lookup id (x ∷ xs) = let rest = lookup id xs in if key x == id then some x else rest

  -- No two entries have the same key.
  abbrev pub Distinct : List A → Type 0
  Distinct [] = Unit
  Distinct (x ∷ xs) = (lookup (key x) xs ≡ none) × Distinct xs

  -- What a search says of the list.
  abbrev pub Found : ℕ → List A → Option (ℕ × A) → Type 0
  Found id xs none = lookup id xs ≡ none
  Found id xs (some (i, c)) =
      (i < length xs) × (lookup id xs ≡ some c) × (key c ≡ id) × (get_elem? xs i ≡ some c)

  abbrev next : Option (ℕ × A) → Option (ℕ × A)
  next o = elim o [ none ↦ none | some (i, found) ↦ some (suc i, found) ]

  next-Found :
      (id : ℕ) (x : A) (xs : List A) (o : Option (ℕ × A))
      → (key x == id) ≡ false
      → Found id xs o
      → Found id (x ∷ xs) (next o)
  unfolding lookup
  next-Found id x xs none ne h = rw ne h
  next-Found id x xs (some (i, c)) ne h = rw ne (omega arith, h.1, h.2, h.3)

  pub find_by-Found : (id : ℕ) (xs : List A) → Found id xs (find_by id xs)
  unfolding lookup find_by
  find_by-Found id [] = refl
  find_by-Found id (x ∷ xs) = elim (Bool-cases (key x == id)) [
    | inl same ↦ rw same (omega arith, rw same refl, ground arith, refl)
    | inr other ↦ rw other (next-Found id x xs (find_by id xs) other (find_by-Found id xs))
  ]

  pub entry_of-Found :
      (id : ℕ) (xs : List A) (o : Option (ℕ × A)) → Found id xs o → entry_of o ≡ lookup id xs
  entry_of-Found id xs none h = sym h
  entry_of-Found id xs (some (i, c)) h = sym (h.1)

  pub entry_of-find_by : (id : ℕ) (xs : List A) → entry_of (find_by id xs) ≡ lookup id xs
  entry_of-find_by id xs = entry_of-Found id xs (find_by id xs) (find_by-Found id xs)

  pub lookup-append :
      (id : ℕ) (xs : List A) (r : A)
      → lookup (key r) xs ≡ none
      → lookup id (xs ++ r ∷ []) ≡ (if key r == id then some r else lookup id xs)
  unfolding lookup
  lookup-append id [] r h = refl
  lookup-append id (x ∷ xs) r h = ground (arith, lookup-append id xs r)

  pub append-Distinct :
      (xs : List A) (r : A) → lookup (key r) xs ≡ none → Distinct xs → Distinct (xs ++ r ∷ [])
  unfolding lookup
  append-Distinct [] r h d = (refl, tt)
  append-Distinct (x ∷ xs) r h d = ground (arith, append-Distinct xs r, lookup-append (key x) xs r)

  lookup_present :
      (i : ℕ) (xs : List A) (c : A) → get_elem? xs i ≡ some c → lookup (key c) xs ≢ none
  unfolding lookup
  lookup_present i [] c e = ground arith
  lookup_present zero (x ∷ xs) c e = ground arith
  lookup_present (suc i) (x ∷ xs) c e = ground (arith, lookup_present i xs c)

  lookup-remove-none : (k i : ℕ) (xs : List A) → lookup k xs ≡ none → lookup k (remove xs i) ≡ none
  unfolding lookup
  lookup-remove-none k i [] h = refl
  lookup-remove-none k zero (x ∷ xs) h = ground arith
  lookup-remove-none k (suc i) (x ∷ xs) h = ground (arith, lookup-remove-none k i xs)

  pub lookup-remove :
      (id k i : ℕ) (xs : List A) (c : A)
      → Distinct xs
      → get_elem? xs i ≡ some c
      → key c ≡ id
      → lookup k (remove xs i) ≡ (if k == id then none else lookup k xs)
  unfolding lookup
  lookup-remove id k i [] c d e h = ground arith
  lookup-remove id k zero (x ∷ xs) c d e h = ground arith
  lookup-remove id k (suc i) (x ∷ xs) c d e h =
      ground (arith, lookup-remove id k i xs c, lookup_present i xs c)

  pub remove-Distinct : (i : ℕ) (xs : List A) → Distinct xs → Distinct (remove xs i)
  unfolding lookup
  remove-Distinct i [] d = tt
  remove-Distinct zero (x ∷ xs) d = d.1
  remove-Distinct (suc i) (x ∷ xs) d =
      (lookup-remove-none (key x) i xs d.0, remove-Distinct i xs d.1)

  lookup-set-none :
      (k i : ℕ) (xs : List A) (c v : A)
      → get_elem? xs i ≡ some c
      → key v ≡ key c
      → lookup k xs ≡ none
      → lookup k (set xs i v) ≡ none
  unfolding lookup
  lookup-set-none k i [] c v e h n = refl
  lookup-set-none k zero (x ∷ xs) c v e h n = ground arith
  lookup-set-none k (suc i) (x ∷ xs) c v e h n = ground (arith, lookup-set-none k i xs c v)

  pub lookup-set :
      (id k i : ℕ) (xs : List A) (c v : A)
      → Distinct xs
      → get_elem? xs i ≡ some c
      → key c ≡ id
      → key v ≡ id
      → lookup k (set xs i v) ≡ (if k == id then some v else lookup k xs)
  unfolding lookup
  lookup-set id k i [] c v d e h h' = ground arith
  lookup-set id k zero (x ∷ xs) c v d e h h' = ground arith
  lookup-set id k (suc i) (x ∷ xs) c v d e h h' =
      ground (arith, lookup-set id k i xs c v, lookup_present i xs c)

  pub set-Distinct :
      (i : ℕ) (xs : List A) (c v : A)
      → get_elem? xs i ≡ some c
      → key v ≡ key c
      → Distinct xs
      → Distinct (set xs i v)
  unfolding lookup
  set-Distinct i [] c v e h d = tt
  set-Distinct zero (x ∷ xs) c v e h d = ground arith
  set-Distinct (suc i) (x ∷ xs) c v e h d =
      (lookup-set-none (key x) i xs c v e h d.0, set-Distinct i xs c v e h d.1)
