-- ===== src/DtcManager/Aging/Loop.antt =====
-- The aging loop leaves the records that do not expire, each after its step.
use cant.Prelude.{
  ℕ, zero, suc, ◌+◌, ◌-◌, ◌≤◌, ◌≡◌, refl, true, false, Option, none, some, List, [], ◌∷◌, ◌++◌, ltb,
  if◌then◌else◌, take, set, remove, length, arith, ap, sym, ◌∙◌, Bool-cases, inl, inr, length-set,
  length-append, append_assoc, length-take,
}
use mathlib.Core.Path.{subst}
use cant.Prelude.Table.{shift_down, lookup, Distinct}
use cant.Prelude.Table.Arrays.{
  set-append, remove-append, get_or-front, IsTable, take-set, take-shift_down, length-shift_down,
}
use cant.DtcManager.{DtcRecord, DtcConfig, DtcStorage, no_record, number, active}
use cant.DtcManager.Aging.{aged, expires, aging_loop, aged_storage, process_aging, age_all}

-- What the loop is to leave: an array of the same size whose front is the given list.
abbrev pub Leaves : List DtcRecord → List DtcRecord → Option (List DtcRecord × ℕ) → Type 0
Leaves xs ys none = ⊥
Leaves xs ys (some (records, n)) =
    (take n records ≡ ys) × (length records ≡ length xs) × (n ≡ length ys)

front_length : (n : ℕ) (xs ys : List DtcRecord) → n ≤ length xs → take n xs ≡ ys → length ys ≡ n
front_length n xs ys h e = ap length (sym e) ∙ omega (arith, length-take n xs)

sized-Leaves :
    (xs xs' ys : List DtcRecord) (o : Option (List DtcRecord × ℕ))
    → length xs' ≡ length xs
    → Leaves xs' ys o
    → Leaves xs ys o
sized-Leaves xs xs' ys none h l = l
sized-Leaves xs xs' ys (some (records, n)) h l = (l.0, l.1 ∙ h, l.2)

module _ {W : Type 0} (config : DtcConfig W) where
  aging_loop_end :
      (fuel : ℕ) (xs pre : List DtcRecord) (n : ℕ)
      → n ≤ length xs
      → take n xs ≡ pre ++ []
      → aging_loop fuel config xs n (length pre) ≡ some (xs, n)
  unfolding aging_loop
  aging_loop_end zero xs pre n h e =
      ground (arith, front_length n xs (pre ++ []) h e, length-append pre [])
  aging_loop_end (suc fuel) xs pre n h e =
      let m = front_length n xs (pre ++ []) h e in
      let stop : ltb (length pre) n ≡ false = ground (arith, length-append pre []) in rw stop refl

  -- The case of a record that stays, from the rest of the loop on the longer front.
  kept-Leaves :
      (fuel : ℕ) (xs xs' pre ys : List DtcRecord) (y : DtcRecord) (n : ℕ)
      → length xs' ≡ length xs
      → Leaves xs' ((pre ++ y ∷ []) ++ ys) (aging_loop fuel config xs' n (length (pre ++ y ∷ [])))
      → Leaves xs (pre ++ y ∷ ys) (aging_loop fuel config xs' n (length pre + 1))
  kept-Leaves fuel xs xs' pre ys y n h l =
      let next : length pre + 1 ≡ length (pre ++ y ∷ []) =
        omega (arith, length-append pre (y ∷ [])) in
      sized-Leaves xs xs' (pre ++ y ∷ ys) (aging_loop fuel config xs' n (length pre + 1)) h (
        subst (λ i. Leaves xs' (pre ++ y ∷ ys) (aging_loop fuel config xs' n i)) (sym next)
          (subst (λ t. Leaves xs' t (aging_loop fuel config xs' n (length (pre ++ y ∷ []))))
            (append_assoc pre (y ∷ []) ys) l))

  aging_loop_lem :
      (fuel : ℕ) (xs pre rest : List DtcRecord) (n : ℕ)
      → n ≤ length xs
      → length rest ≤ fuel
      → take n xs ≡ pre ++ rest
      → Leaves xs (pre ++ age_all config rest) (aging_loop fuel config xs n (length pre))
  unfolding aging_loop
  aging_loop_lem fuel xs pre [] n h k e =
      rw (aging_loop_end fuel xs pre n h e) (e, refl, sym (front_length n xs (pre ++ []) h e))
  aging_loop_lem zero xs pre (r ∷ rest) n h k e = absurd (omega arith)
  aging_loop_lem (suc fuel) xs pre (r ∷ rest) n h k e =
      let size : n ≡ length pre + suc (length rest) =
        omega (arith, front_length n xs (pre ++ r ∷ rest) h e, length-append pre (r ∷ rest)) in
      let inside : ltb (length pre) n ≡ true = ground arith in
      let y = aged config r in
      let i = length pre in
      let same = length-set xs i y in
      let room : n ≤ length (set xs i y) = omega (arith, same) in
      let front : take n (set xs i y) ≡ pre ++ y ∷ rest =
        take-set n i xs y ∙ ap (λ t. set t i y) e ∙ set-append pre rest r y in
      let cleared =
        sized-Leaves xs (shift_down (set xs i y) n i) (pre ++ age_all config rest)
          (aging_loop fuel config (shift_down (set xs i y) n i) (n - 1) i)
          (length-shift_down (set xs i y) n i room ∙ same)
          (aging_loop_lem fuel (shift_down (set xs i y) n i) pre rest (n - 1)
            (omega (arith, length-shift_down (set xs i y) n i room)) (omega arith)
            (take-shift_down (set xs i y) n i room (omega arith)
              ∙ ap (λ t. remove t i) front
              ∙ remove-append pre rest y)) in
      let kept = kept-Leaves fuel xs (set xs i y) pre (age_all config rest) y n same (
        aging_loop_lem fuel (set xs i y) (pre ++ y ∷ []) rest n room (omega arith)
          (front ∙ sym (append_assoc pre (y ∷ []) rest))) in
      elim (Bool-cases (expires config r)) [
        | inl gone ↦ rw (inside, get_or-front n xs pre rest r no_record e, gone) cleared
        | inr stays ↦ rw (inside, get_or-front n xs pre rest r no_record e, stays) kept
      ]

  aged-number : (r : DtcRecord) → number (aged config r) ≡ number r
  unfolding aged
  aged-number r = ground arith

  lookup-age_all-none :
      (k : ℕ) (rs : List DtcRecord)
      → lookup number k rs ≡ none
      → lookup number k (age_all config rs) ≡ none
  unfolding lookup
  lookup-age_all-none k [] h = refl
  lookup-age_all-none k (r ∷ rs) h = ground (arith, lookup-age_all-none k rs, aged-number r)

  age_all-Distinct :
      (rs : List DtcRecord) → Distinct number rs → Distinct number (age_all config rs)
  age_all-Distinct [] d = tt
  age_all-Distinct (r ∷ rs) d = elim (Bool-cases (expires config r)) [
    | inl gone ↦ rw gone (age_all-Distinct rs d.1)
    | inr stays ↦
        rw (stays, aged-number r) (lookup-age_all-none (number r) rs d.0, age_all-Distinct rs d.1)
  ]

  age_all-le : (rs : List DtcRecord) → length (age_all config rs) ≤ length rs
  age_all-le [] = omega arith
  age_all-le (r ∷ rs) = ground (arith, age_all-le rs)

-- What `DTC_ProcessAging` is to leave.
abbrev pub Ages : {W : Type 0} → DtcStorage W → Option (DtcStorage W) → Type 0
Ages s none = ⊥
Ages s (some s') =
    (active s' ≡ (if s.initialized then age_all s.config (active s) else active s))
    × IsTable number s.max_records s'.records s'.record_count
    × (s'.config ≡ s.config)

aged_storage-Ages :
    {W : Type 0} (s : DtcStorage W) (o : Option (List DtcRecord × ℕ))
    → IsTable number s.max_records s.records s.record_count
    → s.initialized ≡ true
    → Leaves s.records (age_all s.config (active s)) o
    → Ages s (aged_storage s o)
aged_storage-Ages s none t on l = l
aged_storage-Ages s (some (records, n)) t on l = rw on (
  l.0,
  record {
    sized = l.1 ∙ t.sized;
    bounded = omega (
      arith,
      l.2,
      age_all-le s.config (active s),
      length-take s.record_count s.records,
      t.bounded,
    );
    distinct =
        subst (Distinct number) (sym (l.0)) (age_all-Distinct s.config (active s) t.distinct);
  },
  refl,
)

module _ {W : Type 0} (s : DtcStorage W) where
  pub process_aging_on :
      s.initialized ≡ true
      → process_aging s
        ≡ aged_storage s (aging_loop s.record_count s.config s.records s.record_count 0)
  unfolding process_aging
  process_aging_on on = rw on refl

  pub process_aging_off : s.initialized ≡ false → process_aging s ≡ some s
  unfolding process_aging
  process_aging_off off = rw off refl

-- On a valid store the loop of `DTC_ProcessAging` ends within as many rounds as there are records,
-- and the records in use afterwards are, in their order, those that did not expire, each after its
-- aging step. The store stays valid, and one that is not set up is left alone.
pub process_aging-Ages :
    {W : Type 0} (s : DtcStorage W)
    → IsTable number s.max_records s.records s.record_count
    → Ages s (process_aging s)
process_aging-Ages s t = elim (Bool-cases s.initialized) [
  | inl on ↦ rw (process_aging_on s on) (
      aged_storage-Ages s (aging_loop s.record_count s.config s.records s.record_count 0) t on (
        aging_loop_lem s.config s.record_count s.records [] (active s) s.record_count
          (omega (arith, t.sized, t.bounded)) (omega (arith, length-take s.record_count s.records))
          refl))
  | inr off ↦ rw (process_aging_off s off) (rw off refl, t, refl)
]
