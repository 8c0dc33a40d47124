-- ===== src/SessionFsm/Ids.antt =====
-- Lists of session ids, 0 for a free slot: how many are in use, and that they are all different.
use cant.Prelude.{
  ℕ, zero, suc, ◌≡◌, ◌≢◌, refl, sym, ap, ◌⊎◌, inl, inr, Bool, not, some, List, [], ◌∷◌, map, arith,
  ◌==◌, Bool-cases, length, get_elem?, set, All, All-set, count_if,
}

abbrev pub in_use : ℕ → Bool
in_use id = not (id == 0)

-- No entry of a list is the id.
abbrev pub Unused : ℕ → List ℕ → Type 0
Unused id ids = All (λ (i : ℕ). i ≢ id) ids

-- No id stands in two entries.
abbrev pub Distinct : List ℕ → Type 0
Distinct [] = Unit
Distinct (i ∷ is) = ((i ≡ 0) ⊎ Unused i is) × Distinct is

-- An entry that becomes an id that no entry has, or 0, leaves the ids different.
pub Distinct-set :
    (is : List ℕ) (k v : ℕ) → Distinct is → (v ≡ 0) ⊎ Unused v is → Distinct (set is k v)
Distinct-set [] k v d h = tt
Distinct-set (i ∷ is) zero v d (inl e) = (inl e, d.1)
Distinct-set (i ∷ is) zero v d (inr u) = (inr u.1, d.1)
Distinct-set (i ∷ is) (suc k) v (inl e, d) (inl e') = (inl e, Distinct-set is k v d (inl e'))
Distinct-set (i ∷ is) (suc k) v (inl e, d) (inr u) = (inl e, Distinct-set is k v d (inr u.1))
Distinct-set (i ∷ is) (suc k) v (inr w, d) (inr u) =
    (inr (All-set (λ (j : ℕ). j ≢ i) is k v w (λ e. u.0 (sym e))), Distinct-set is k v d (inr u.1))
Distinct-set (i ∷ is) (suc k) v (inr w, d) (inl e) = elim (Bool-cases (i == 0)) [
  | inl free ↦ (inl (ground arith), Distinct-set is k v d (inl e))
  | inr used ↦
      (inr (All-set (λ (j : ℕ). j ≢ i) is k v w (ground arith)), Distinct-set is k v d (inl e))
]

-- An entry that is not in use is there unless all are.
pub count_if-full : (is : List ℕ) → Unused 0 is → count_if in_use is ≡ length is
count_if-full [] h = refl
count_if-full (i ∷ is) h = ground (arith, count_if-full is h.1)

pub map-set {ℓ κ} :
    {A : Type ℓ} {B : Type κ} (g : A → B) (xs : List A) (k : ℕ) (v : A)
    → map g (set xs k v) ≡ set (map g xs) k (g v)
map-set g [] k v = refl
map-set g (x ∷ xs) zero v = refl
map-set g (x ∷ xs) (suc k) v = ap (λ t. g x ∷ t) (map-set g xs k v)

-- A write of what the mapped list already holds changes nothing in it.
pub map-set_same {ℓ κ} :
    {A : Type ℓ} {B : Type κ} (g : A → B) (xs : List A) (k : ℕ) (old v : A)
    → get_elem? xs k ≡ some old
    → g v ≡ g old
    → map g (set xs k v) ≡ map g xs
map-set_same g [] k old v h e = refl
map-set_same g (x ∷ xs) zero old v h e = cc
map-set_same g (x ∷ xs) (suc k) old v h e = ap (λ t. g x ∷ t) (map-set_same g xs k old v h e)

pub get_elem?-map {ℓ κ} :
    {A : Type ℓ} {B : Type κ} (g : A → B) (xs : List A) (k : ℕ) (a : A)
    → get_elem? xs k ≡ some a
    → get_elem? (map g xs) k ≡ some (g a)
get_elem?-map g [] k a h = cc
get_elem?-map g (x ∷ xs) zero a h = cc
get_elem?-map g (x ∷ xs) (suc k) a h = get_elem?-map g xs k a h
