-- ===== src/Prelude/Index.antt =====
-- What stands at an index of a list built by `take`, `drop`, `++` and `memcpy`, in `if` form, and
-- equality of lists index by index.
use Prim.Native.Nat.{ℕ, zero, suc, ◌+◌, ◌-◌, ◌≤◌}
use mathlib.Core.Path.{◌≡◌, refl, ap, sym, ◌∙◌}
use mathlib.Core.List.{List, [], ◌∷◌, ◌++◌}
use mathlib.Core.Option.{none, some}
use native.Mathlib.Omega.{arith}
use cant.Prelude.Tests.{ltb, if◌then◌else◌}
use cant.Prelude.Lists.{length, get_elem?, take, drop, length-append, length-take, length-drop}
use cant.Prelude.Bytes.{memcpy}

module _ {ℓ} {A : Type ℓ} where
  pub get_elem?_past : (xs : List A) (i : ℕ) → length xs ≤ i → get_elem? xs i ≡ none
  get_elem?_past [] i h = refl
  get_elem?_past (x ∷ xs) zero h = elim h [ ]
  get_elem?_past (x ∷ xs) (suc i) h = get_elem?_past xs i (omega arith)

  pub get_elem?-take :
      (n : ℕ) (xs : List A) (i : ℕ)
      → get_elem? (take n xs) i ≡ (if ltb i n then get_elem? xs i else none)
  get_elem?-take zero xs i = ground arith
  get_elem?-take (suc n) [] i = ground arith
  get_elem?-take (suc n) (x ∷ xs) zero = ground arith
  get_elem?-take (suc n) (x ∷ xs) (suc i) = ground (arith, get_elem?-take n xs i)

  pub get_elem?-drop :
      (n : ℕ) (xs : List A) (i : ℕ) → get_elem? (drop n xs) i ≡ get_elem? xs (n + i)
  get_elem?-drop zero xs i = let e : i ≡ zero + i = omega arith in ap (get_elem? xs) e
  get_elem?-drop (suc n) [] i = refl
  get_elem?-drop (suc n) (x ∷ xs) i =
      let e : suc (n + i) ≡ suc n + i = omega arith in
      get_elem?-drop n xs i ∙ ap (get_elem? (x ∷ xs)) e

  pub get_elem?-append :
      (xs ys : List A) (i : ℕ)
      → get_elem? (xs ++ ys) i
        ≡ (if ltb i (length xs) then get_elem? xs i else get_elem? ys (i - length xs))
  get_elem?-append [] ys i = ground arith
  get_elem?-append (x ∷ xs) ys zero = ground arith
  get_elem?-append (x ∷ xs) ys (suc i) = ground (arith, get_elem?-append xs ys i)

  pub ext : (xs ys : List A) → ((i : ℕ) → get_elem? xs i ≡ get_elem? ys i) → xs ≡ ys
  ext [] [] h = refl
  ext [] (y ∷ ys) h = let e = h 0 in cc
  ext (x ∷ xs) [] h = let e = h 0 in cc
  ext (x ∷ xs) (y ∷ ys) h =
      let e : some x ≡ some y = h 0 in let t = ext xs ys (λ i. h (suc i)) in cc

pub get_elem?-memcpy :
    (dst : List ℕ) (at : ℕ) (src : List ℕ) (n i : ℕ)
    → at + n ≤ length dst
    → n ≤ length src
    → get_elem? (memcpy dst at src n) i ≡ (
        if ltb i at
        then get_elem? dst i
        else if ltb i (at + n)
        then get_elem? src (i - at)
        else get_elem? dst i)
get_elem?-memcpy dst at src n i h k = ground (
  arith,
  get_elem?-append (take at dst) (take n src ++ drop (at + n) dst) i,
  get_elem?-append (take n src) (drop (at + n) dst) (i - length (take at dst)),
  length-take at dst,
  length-take n src,
  get_elem?-take at dst i,
  get_elem?-take n src (i - length (take at dst)),
  get_elem?-drop (at + n) dst (i - length (take at dst) - length (take n src)),
)

pub length-memcpy :
    (dst : List ℕ) (at : ℕ) (src : List ℕ) (n : ℕ)
    → at + n ≤ length dst
    → n ≤ length src
    → length (memcpy dst at src n) ≡ length dst
length-memcpy dst at src n h k = omega (
  arith,
  length-append (take at dst) (take n src ++ drop (at + n) dst),
  length-append (take n src) (drop (at + n) dst),
  length-take at dst,
  length-take n src,
  length-drop (at + n) dst,
)

-- What stands before the end of a copy.
pub take-memcpy :
    (dst : List ℕ) (at : ℕ) (src : List ℕ) (n : ℕ)
    → at + n ≤ length dst
    → n ≤ length src
    → take (at + n) (memcpy dst at src n) ≡ take at dst ++ take n src
take-memcpy dst at src n h k = ext _ _ λ i. ground (
  arith,
  get_elem?-take (at + n) (memcpy dst at src n) i,
  get_elem?-memcpy dst at src n i h k,
  get_elem?-append (take at dst) (take n src) i,
  length-take at dst,
  get_elem?-take at dst i,
  get_elem?-take n src (i - at),
)

-- A copy reads only the first `n` bytes of its source.
pub take_padded : (n : ℕ) (xs ys : List ℕ) → n ≤ length xs → take n (take n xs ++ ys) ≡ take n xs
take_padded n xs ys h = ext _ _ λ i. ground (
  arith,
  get_elem?-take n (take n xs ++ ys) i,
  get_elem?-append (take n xs) ys i,
  length-take n xs,
  get_elem?-take n xs i,
)

pub take-memcpy_zero :
    (dst src : List ℕ) (n : ℕ)
    → n ≤ length dst
    → n ≤ length src
    → take n (memcpy dst 0 src n) ≡ take n src
take-memcpy_zero dst src n h k =
    let e : 0 + n ≡ n = omega arith in
    ap (λ m. take m (memcpy dst 0 src n)) (sym e) ∙ take-memcpy dst 0 src n (omega arith) k

pub memcpy_zero : (dst src : List ℕ) (n : ℕ) → memcpy dst 0 src n ≡ take n src ++ drop n dst
memcpy_zero dst src n = let e : 0 + n ≡ n = omega arith in ap (λ m. take n src ++ drop m dst) e
