-- ===== src/Prelude/Table/Arrays.antt =====
-- The array of a table: adding at its end, changing and removing an entry.
use Prim.Native.Nat.{ℕ, zero, suc, ◌+◌, ◌-◌, ◌<◌, ◌≤◌}
use mathlib.Core.Path.{◌≡◌, refl, sym, ap, ◌∙◌, subst}
use mathlib.Core.Logic.{inl, inr}
use mathlib.Core.Option.{none, some}
use mathlib.Core.List.{List, [], ◌∷◌, ◌++◌, append_assoc, append-nil}
use native.Mathlib.Omega.{arith}
use cant.Prelude.Tests.{ltb, ◌==◌, if◌then◌else◌, Bool-cases, ltb→lt}
use cant.Prelude.Lists.{
  length, get_or, set, take, drop, remove, length-set, length-take, length-drop, length-append,
  take-append_le, take_all,
}
use cant.Prelude.Predicates.{All, All-append, All-take, All-drop}
use cant.Prelude.Table.{
  shift_down, lookup, Distinct, Found, lookup-append, append-Distinct, lookup-remove,
  remove-Distinct, lookup-set, set-Distinct,
}

-- The array keeps its length, the count its bound, and the keys in use are different.
pub record IsTable {A : Type 0} (key : A → ℕ) (cap : ℕ) (xs : List A) (n : ℕ) : Type 0 where
  pub sized : length xs ≡ cap
  pub bounded : n ≤ cap
  pub distinct : Distinct key (take n xs)

module _ {ℓ} {A : Type ℓ} where
  pub take-set_end :
      (n : ℕ) (xs : List A) (v : A)
      → n < length xs
      → take (suc n) (set xs n v) ≡ take n xs ++ v ∷ []
  take-set_end n [] v h = absurd (omega arith)
  take-set_end zero (x ∷ xs) v h = refl
  take-set_end (suc n) (x ∷ xs) v h = ap (λ t. x ∷ t) (take-set_end n xs v (omega arith))

  pub take-set : (n i : ℕ) (xs : List A) (v : A) → take n (set xs i v) ≡ set (take n xs) i v
  take-set zero i xs v = refl
  take-set (suc n) i [] v = refl
  take-set (suc n) zero (x ∷ xs) v = refl
  take-set (suc n) (suc i) (x ∷ xs) v = ap (λ t. x ∷ t) (take-set n i xs v)

  remove-take :
      (i m n : ℕ) (xs : List A)
      → n ≡ suc (i + m)
      → n ≤ length xs
      → remove (take n xs) i ≡ take i xs ++ take m (drop (suc i) xs)
  remove-take i m zero xs h k = absurd (omega arith)
  remove-take i m (suc n) [] h k = absurd (omega arith)
  remove-take zero m (suc n) (x ∷ xs) h k = let e : n ≡ m = omega arith in ap (λ t. take t xs) e
  remove-take (suc i) m (suc n) (x ∷ xs) h k =
      ap (λ t. x ∷ t) (remove-take i m n xs (omega arith) (omega arith))

  take_joined :
      (n : ℕ) (xs ys zs : List A) → n ≡ length xs + length ys → take n (xs ++ (ys ++ zs)) ≡ xs ++ ys
  take_joined n xs ys zs h =
      ap (take n) (sym (append_assoc xs ys zs))
      ∙ take-append_le n (xs ++ ys) zs (omega (arith, length-append xs ys))
      ∙ take_all n (xs ++ ys) (omega (arith, length-append xs ys))

module _ {ℓ} {A : Type ℓ} where
  -- A write and a removal behind the front of an array.
  pub set-append :
      (pre rest : List A) (x v : A) → set (pre ++ x ∷ rest) (length pre) v ≡ pre ++ v ∷ rest
  set-append [] rest x v = refl
  set-append (y ∷ pre) rest x v = ap (λ t. y ∷ t) (set-append pre rest x v)

  pub remove-append :
      (pre rest : List A) (x : A) → remove (pre ++ x ∷ rest) (length pre) ≡ pre ++ rest
  remove-append [] rest x = refl
  remove-append (y ∷ pre) rest x = ap (λ t. y ∷ t) (remove-append pre rest x)

  -- The element behind a front part of an array.
  pub get_or-front :
      (n : ℕ) (xs pre rest : List A) (x d : A)
      → take n xs ≡ pre ++ x ∷ rest
      → get_or xs (length pre) d ≡ x
  get_or-front zero xs [] rest x d e = ground arith
  get_or-front zero xs (y ∷ pre) rest x d e = ground arith
  get_or-front (suc n) [] [] rest x d e = ground arith
  get_or-front (suc n) [] (y ∷ pre) rest x d e = ground arith
  get_or-front (suc n) (z ∷ xs) [] rest x d e = ground arith
  get_or-front (suc n) (z ∷ xs) (y ∷ pre) rest x d e =
      ground (arith, get_or-front n xs pre rest x d)

module _ {A : Type 0} where
  pub length-shift_down :
      (xs : List A) (n i : ℕ) → n ≤ length xs → length (shift_down xs n i) ≡ length xs
  unfolding shift_down
  length-shift_down xs n i h = elim (Bool-cases (ltb i (n - 1))) [
    | inl moved ↦ rw moved (
        omega (
          arith,
          ltb→lt i (n - 1) moved,
          length-append (take i xs) (take (n - i - 1) (drop (i + 1) xs) ++ drop (n - 1) xs),
          length-append (take (n - i - 1) (drop (i + 1) xs)) (drop (n - 1) xs),
          length-take i xs,
          length-take (n - i - 1) (drop (i + 1) xs),
          length-drop (i + 1) xs,
          length-drop (n - 1) xs,
        ))
    | inr last ↦ rw last refl
  ]

  pub take-shift_down :
      (xs : List A) (n i : ℕ)
      → n ≤ length xs
      → i < n
      → take (n - 1) (shift_down xs n i) ≡ remove (take n xs) i
  unfolding shift_down
  take-shift_down xs n i k h = elim (Bool-cases (ltb i (n - 1))) [
    | inl moved ↦
        let m = n - i - 1 in
        let e : i + 1 ≡ suc i = omega arith in
        rw moved (
          take_joined (n - 1) (take i xs) (take m (drop (i + 1) xs)) (drop (n - 1) xs) (
            omega
              (arith, length-take i xs, length-take m (drop (i + 1) xs), length-drop (i + 1) xs))
          ∙ ap (λ t. take i xs ++ take m (drop t xs)) e
          ∙ sym (remove-take i m n xs (ground arith) k))
    | inr last ↦
        let e : n - 1 ≡ i = ground arith in
        rw last (
          ap (λ t. take t xs) e
          ∙ sym (append-nil (take i xs))
          ∙ sym (remove-take i 0 n xs (ground arith) k))
  ]

module _ {A : Type 0} {key : A → ℕ} {cap : ℕ} {xs : List A} {n : ℕ} (t : IsTable key cap xs n) where
  pub take_end : (v : A) → n < cap → take (n + 1) (set xs n v) ≡ take n xs ++ v ∷ []
  take_end v room =
      let e : n + 1 ≡ suc n = omega arith in
      ap (λ m. take m (set xs n v)) e ∙ take-set_end n xs v (omega (arith, t.sized))

  pub add-IsTable :
      (v : A)
      → n < cap
      → lookup key (key v) (take n xs) ≡ none
      → IsTable key cap (set xs n v) (n + 1)
  add-IsTable v room fresh = record {
    sized = length-set xs n v ∙ t.sized;
    bounded = omega arith;
    distinct =
        subst (Distinct key) (sym (take_end v room))
          (append-Distinct key (take n xs) v fresh t.distinct);
  }

  pub lookup_added :
      (id : ℕ) (v : A)
      → n < cap
      → lookup key (key v) (take n xs) ≡ none
      → lookup key id (take (n + 1) (set xs n v))
        ≡ (if key v == id then some v else lookup key id (take n xs))
  lookup_added id v room fresh =
      ap (lookup key id) (take_end v room) ∙ lookup-append key id (take n xs) v fresh

  pub remove-IsTable :
      (id i : ℕ) (c : A)
      → Found key id (take n xs) (some (i, c))
      → IsTable key cap (shift_down xs n i) (n - 1)
  remove-IsTable id i c h =
      let fits : n ≤ length xs = omega (arith, t.sized, t.bounded) in
      let inside : i < n = omega (arith, h.0, length-take n xs) in
      record {
        sized = length-shift_down xs n i fits ∙ t.sized;
        bounded = omega (arith, t.bounded);
        distinct =
            subst (Distinct key) (sym (take-shift_down xs n i fits inside))
              (remove-Distinct key i (take n xs) t.distinct);
      }

  pub lookup_removed :
      (id k i : ℕ) (c : A)
      → Found key id (take n xs) (some (i, c))
      → lookup key k (take (n - 1) (shift_down xs n i))
        ≡ (if k == id then none else lookup key k (take n xs))
  lookup_removed id k i c h =
      let fits : n ≤ length xs = omega (arith, t.sized, t.bounded) in
      let inside : i < n = omega (arith, h.0, length-take n xs) in
      ap (lookup key k) (take-shift_down xs n i fits inside)
      ∙ lookup-remove key id k i (take n xs) c t.distinct (h.3) (h.2)

  pub set-IsTable :
      (id i : ℕ) (c v : A)
      → Found key id (take n xs) (some (i, c))
      → key v ≡ id
      → IsTable key cap (set xs i v) n
  set-IsTable id i c v h e = record {
    sized = length-set xs i v ∙ t.sized;
    bounded = t.bounded;
    distinct =
        subst (Distinct key) (sym (take-set n i xs v))
          (set-Distinct key i (take n xs) c v (h.3) (e ∙ sym (h.2)) t.distinct);
  }

  pub lookup_changed :
      (id k i : ℕ) (c v : A)
      → Found key id (take n xs) (some (i, c))
      → key v ≡ id
      → lookup key k (take n (set xs i v)) ≡ (if k == id then some v else lookup key k (take n xs))
  lookup_changed id k i c v h e =
      ap (lookup key k) (take-set n i xs v)
      ∙ lookup-set key id k i (take n xs) c v t.distinct (h.3) (h.2) e

pub All-shift_down {κ} :
    {A : Type 0} (P : A → Type κ) (xs : List A) (n i : ℕ) → All P xs → All P (shift_down xs n i)
unfolding shift_down
All-shift_down P xs n i h = elim (Bool-cases (ltb i (n - 1))) [
  | inl moved ↦ rw moved (
      All-append P (take i xs) (take (n - i - 1) (drop (i + 1) xs) ++ drop (n - 1) xs)
        (All-take P i xs h)
        (All-append P (take (n - i - 1) (drop (i + 1) xs)) (drop (n - 1) xs)
          (All-take P (n - i - 1) (drop (i + 1) xs) (All-drop P (i + 1) xs h))
          (All-drop P (n - 1) xs h)))
  | inr last ↦ rw last h
]
