-- ===== src/RoutineManager/Timeouts/Loops.antt =====
-- The loops of routine_manager.c leave the routines that are still in time, or none.
use cant.Prelude.{
  ℕ, zero, suc, ◌+◌, ◌≤◌, ◌≡◌, refl, Bool, true, false, not, Option, some, List, [], ◌∷◌, ◌++◌, ltb,
  if◌then◌else◌, get_or, length, arith, sym, ◌∙◌, Bool-cases, inl, inr, length-append, append_assoc,
  length-take,
}
use mathlib.Core.Path.{subst}
use cant.Prelude.Table.{lookup, entry_of-find_by}
use cant.Prelude.Table.Arrays.{get_or-front}
use cant.RoutineManager.{
  RoutineInstance, RoutineManager, no_instance, id_of, known, active, routine_status_stopped,
}
use cant.RoutineManager.Timeouts.{
  overdue, failed, timed_out, timeout_calls, timeout_loop, process_timeout, abort_loop, abort_all,
  in_time,
}
use cant.RoutineManager.Timeouts.Left.{
  Leaves, front_length, freed, freed-Left, Left-Leaves, stays-Left, Left-known,
}

module _ {W : Type 0} where
  timeout_loop_end :
      (fuel now : ℕ) (m : RoutineManager W) (w : W) (i : ℕ)
      → ltb i m.active_count ≡ false
      → timeout_loop fuel now m w i ≡ some (m, w)
  unfolding timeout_loop
  timeout_loop_end zero now m w i h = rw h refl
  timeout_loop_end (suc fuel) now m w i h = rw h refl

  timeout_round :
      (fuel now : ℕ) (m : RoutineManager W) (w : W) (i : ℕ) (x : RoutineInstance)
      → ltb i m.active_count ≡ true
      → get_or m.active_routines i no_instance ≡ x
      → let routine = lookup id_of x.routine_id (known m) in
        timeout_loop (suc fuel) now m w i ≡ (
          if overdue now x routine
          then timeout_loop fuel now (timed_out m i x) (timeout_calls m w x.routine_id routine) i
          else timeout_loop fuel now m w (i + 1))
  unfolding timeout_loop
  timeout_round fuel now m w i x inside e =
      rw (inside, e, entry_of-find_by id_of x.routine_id (known m)) refl

  -- The case of an instance that is in time, from the rest of the loop on the longer front.
  passed-Leaves :
      (fuel now : ℕ) (m : RoutineManager W) (w : W) (pre ys : List RoutineInstance)
      (x : RoutineInstance)
      → Leaves m ((pre ++ x ∷ []) ++ ys) (timeout_loop fuel now m w (length (pre ++ x ∷ [])))
      → Leaves m (pre ++ x ∷ ys) (timeout_loop fuel now m w (length pre + 1))
  passed-Leaves fuel now m w pre ys x l =
      let next : length pre + 1 ≡ length (pre ++ x ∷ []) =
        omega (arith, length-append pre (x ∷ [])) in
      subst (λ i. Leaves m (pre ++ x ∷ ys) (timeout_loop fuel now m w i)) (sym next)
        (subst (λ t. Leaves m t (timeout_loop fuel now m w (length (pre ++ x ∷ []))))
          (append_assoc pre (x ∷ []) ys) l)

  timeout_loop_lem :
      (fuel now : ℕ) (m : RoutineManager W) (w : W) (pre rest : List RoutineInstance)
      → m.active_count ≤ length m.active_routines
      → length rest ≤ fuel
      → active m ≡ pre ++ rest
      → Leaves m (pre ++ in_time now (known m) rest) (timeout_loop fuel now m w (length pre))
  timeout_loop_lem fuel now m w pre [] h k e =
      let size = front_length m.active_count m.active_routines (pre ++ []) h e in
      let last : ltb (length pre) m.active_count ≡ false = ground (arith, length-append pre []) in
      rw (timeout_loop_end fuel now m w (length pre) last) (stays-Left m (pre ++ []) h e)
  timeout_loop_lem zero now m w pre (x ∷ rest) h k e = absurd (omega arith)
  timeout_loop_lem (suc fuel) now m w pre (x ∷ rest) h k e =
      let size = front_length m.active_count m.active_routines (pre ++ x ∷ rest) h e in
      let inside : ltb (length pre) m.active_count ≡ true =
        ground (arith, length-append pre (x ∷ rest)) in
      let here = get_or-front m.active_count m.active_routines pre rest x no_instance e in
      let round = timeout_round fuel now m w (length pre) x inside here in
      let w' = timeout_calls m w x.routine_id (lookup id_of x.routine_id (known m)) in
      let m1 = timed_out m (length pre) x in
      let l = freed-Left m pre rest x (failed x) h e in
      let handled =
        Left-Leaves m m1 (pre ++ rest) (pre ++ in_time now (known m) rest)
          (timeout_loop fuel now m1 w' (length pre)) l
          (subst
            (λ t. Leaves m1 (pre ++ in_time now t rest) (timeout_loop fuel now m1 w' (length pre)))
            (Left-known m m1 (pre ++ rest) l)
            (timeout_loop_lem fuel now m1 w' pre rest
              (omega
                (arith, l.counted, l.sized, length-append pre rest, length-append pre (x ∷ rest)))
              (omega arith) l.left)) in
      let passed = passed-Leaves fuel now m w pre (in_time now (known m) rest) x (
        timeout_loop_lem fuel now m w (pre ++ x ∷ []) rest h (omega arith)
          (e ∙ sym (append_assoc pre (x ∷ []) rest))) in
      elim (Bool-cases (overdue now x (lookup id_of x.routine_id (known m)))) [
        | inl late ↦ rw (round, late) handled
        | inr early ↦ rw (round, early) passed
      ]

  abort_loop_lem :
      (fuel : ℕ) (m : RoutineManager W) (w : W) (rest : List RoutineInstance)
      → m.active_count ≤ length m.active_routines
      → length rest ≤ fuel
      → active m ≡ rest
      → Leaves m [] (abort_loop fuel m w)
  unfolding abort_loop
  abort_loop_lem zero m w [] h k e =
      let size = front_length m.active_count m.active_routines [] h e in
      let last : ltb 0 m.active_count ≡ false = ground arith in rw last (stays-Left m [] h e)
  abort_loop_lem (suc fuel) m w [] h k e =
      let size = front_length m.active_count m.active_routines [] h e in
      let last : ltb 0 m.active_count ≡ false = ground arith in rw last (stays-Left m [] h e)
  abort_loop_lem zero m w (x ∷ rest) h k e = absurd (omega arith)
  abort_loop_lem (suc fuel) m w (x ∷ rest) h k e =
      let size = front_length m.active_count m.active_routines (x ∷ rest) h e in
      let inside : ltb 0 m.active_count ≡ true = ground arith in
      let y = record (get_or m.active_routines 0 no_instance) { status = routine_status_stopped } in
      let l = freed-Left m [] rest x y h e in
      rw inside (
        Left-Leaves m (freed m 0 y) rest [] (abort_loop fuel (freed m 0 y) _) l (
          abort_loop_lem fuel (freed m 0 y) _ rest (omega (arith, l.counted, l.sized)) (omega arith)
            l.left))

  -- A loop that is run only on a manager that is set up.
  if_set_up :
      (m : RoutineManager W) (b : Bool) (ys zs : List RoutineInstance)
      (o p : Option (RoutineManager W × W))
      → Leaves m ys o
      → Leaves m zs p
      → Leaves m (if b then ys else zs) (if not b then p else o)
  if_set_up m true ys zs o p h k = h
  if_set_up m false ys zs o p h k = k

  -- On a manager whose count fits its array, `Routine_Manager_ProcessTimeout` ends; if the manager
  -- is set up, the active routines afterwards are, in their order, those that have not timed out,
  -- and otherwise nothing changes.
  pub process_timeout-Leaves :
      (now : ℕ) (m : RoutineManager W) (w : W)
      → m.active_count ≤ length m.active_routines
      → Leaves m
          (if m.initialized then in_time now (known m) (active m) else active m)
          (process_timeout now m w)
  unfolding process_timeout
  process_timeout-Leaves now m w h =
      let fuel : length (active m) ≤ m.active_count =
        omega (arith, length-take m.active_count m.active_routines) in
      if_set_up m m.initialized (in_time now (known m) (active m)) (active m)
        (timeout_loop m.active_count now m w 0) (some (m, w))
        (timeout_loop_lem m.active_count now m w [] (active m) h fuel refl)
        (stays-Left m (active m) h refl)

  -- On a manager whose count fits its array, `Routine_Manager_AbortAll` ends; if the manager is set
  -- up, no routine is active afterwards, and otherwise nothing changes.
  pub abort_all-Leaves :
      (m : RoutineManager W) (w : W)
      → m.active_count ≤ length m.active_routines
      → Leaves m (if m.initialized then [] else active m) (abort_all m w)
  unfolding abort_all
  abort_all-Leaves m w h =
      let fuel : length (active m) ≤ m.active_count =
        omega (arith, length-take m.active_count m.active_routines) in
      if_set_up m m.initialized [] (active m) (abort_loop m.active_count m w) (some (m, w))
        (abort_loop_lem m.active_count m w (active m) h fuel refl) (stays-Left m (active m) h refl)
