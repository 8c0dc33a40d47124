-- ===== src/Critical/Nesting.antt =====
-- Critical sections one inside the other.
use cant.Prelude.{
  ℕ, ◌≡◌, refl, Bool, false, ◌||◌, Option, none, some, ◌==◌, ==_iff, if◌then◌else◌, arith, ap, ◌∙◌,
  Bool-cases, inl, inr,
}
use cant.Critical.{Interrupts, CriticalSection, enter_critical, exit_critical, masked}

-- What a program does with sections: it locks one, does the inner part, unlocks it, and goes on.
pub data Nest : Type 0 where
  done : Nest
  lock : (i : ℕ) (inner next : Nest) → Nest

-- Whether a part locks a section.
abbrev pub uses : ℕ → Nest → Bool
uses j done = false
uses j (lock i inner next) = i == j || (uses j inner || uses j next)

-- No section is locked again inside itself.
abbrev pub IsProper : Nest → Type 0
IsProper done = Unit
IsProper (lock i inner next) = (uses i inner ≡ false) × IsProper inner × IsProper next

-- The processor and the sections, by their numbers.
abbrev pub Machine : Type 0 → Type 0
Machine C = C × (ℕ → Option CriticalSection)

abbrev pub put :
    (ℕ → Option CriticalSection) → ℕ → Option CriticalSection → ℕ → Option CriticalSection
put sections i cs j = if i == j then cs else sections j

module _ {C : Type 0} (irq : Interrupts C) where
  abbrev pub enter_at : Machine C → ℕ → Machine C
  enter_at (c, sections) i =
      let (c', cs) = enter_critical irq c (sections i) in (c', put sections i cs)

  abbrev pub exit_at : Machine C → ℕ → Machine C
  exit_at (c, sections) i =
      let (c', cs) = exit_critical irq c (sections i) in (c', put sections i cs)

  unfoldable pub run : Nest → Machine C → Machine C
  run done m = m
  run (lock i inner next) m = run next (exit_at (run inner (enter_at m i)) i)

  -- A section that a part does not lock is as it was.
  run-unused : (p : Nest) (m : Machine C) (j : ℕ) → uses j p ≡ false → (run p m).1 j ≡ m.1 j
  unfolding run
  run-unused done m j h = refl
  run-unused (lock i inner next) m j h =
      let other : (i == j) ≡ false = ground arith in
      run-unused next (exit_at (run inner (enter_at m i)) i) j (ground arith)
      ∙ rw other refl
      ∙ run-unused inner (enter_at m i) j (ground arith)
      ∙ rw other refl

  pub exit-enter :
      (c c' : C) (o : Option CriticalSection)
      → masked irq c' ≡ masked irq (enter_critical irq c o).0
      → masked irq (exit_critical irq c' (enter_critical irq c o).1).0 ≡ masked irq c
  unfolding enter_critical exit_critical
  exit-enter c c' none h = h
  exit-enter c c' (some cs) h = elim (Bool-cases (irq.get_primask c == 0)) [
    | inl on ↦ rw (on, irq.enabled c') refl
    | inr off ↦ rw off (h ∙ rw (irq.disabled c) refl)
  ]

  -- After a proper nesting the interrupts are on or off as they were before it.
  pub run-masked : (p : Nest) (m : Machine C) → IsProper p → masked irq (run p m).0 ≡ masked irq m.0
  unfolding run
  run-masked done m h = refl
  run-masked (lock i inner next) m h =
      let entered = enter_critical irq m.0 (m.1 i) in
      let after = run inner (enter_at m i) in
      let same : after.1 i ≡ entered.1 =
        run-unused inner (enter_at m i) i (h.0) ∙ rw ((==_iff i i).1 refl) refl in
      run-masked next (exit_at after i) (h.2)
      ∙ ap (λ o. masked irq (exit_critical irq after.0 o).0) same
      ∙ exit-enter m.0 after.0 (m.1 i) (run-masked inner (enter_at m i) (h.1))
