-- ===== src/NetBuffer/Tests.antt =====
-- Runs of the buffer, and its theorems at concrete inputs.
use cant.Prelude.{ℕ, ◌≡◌, refl, false, true, some, List, [], ◌∷◌, arith}
use cant.NetBuffer.{NetBuffer, init, write, read, peek, reset, stored}
use cant.NetBuffer.Inv.{IsValid}
use cant.NetBuffer.Fifo
use cant.NetBuffer.Fifo.{Call, put_call, get_call, look_call, clear_call}
use cant.NetBuffer.Run.{run, run-init}

-- 10, then 20, round the end of four bytes
abbrev ring : List ℕ
ring = 20 ∷ 0 ∷ 0 ∷ 10 ∷ []

abbrev wrapped : NetBuffer
wrapped = record {
  bytes = some ring;
  size = 4;
  read_index = 3;
  write_index = 1;
  count = 2;
  overflow = false;
}

abbrev script : List Call
script =
    put_call (1 ∷ 2 ∷ 3 ∷ [])
    ∷ get_call 2
    ∷ put_call (4 ∷ 5 ∷ 6 ∷ [])
    ∷ put_call (7 ∷ [])
    ∷ look_call 4
    ∷ clear_call
    ∷ get_call 1
    ∷ []

wrapped-IsValid : IsValid wrapped ring
wrapped-IsValid = ground arith

run-script :
    run (init (some wrapped) 4 (some ring)).0 script
    ≡ (true, [])
      ∷ (true, 1 ∷ 2 ∷ [])
      ∷ (true, [])
      ∷ (false, [])
      ∷ (true, 3 ∷ 4 ∷ 5 ∷ 6 ∷ [])
      ∷ (true, [])
      ∷ (false, 0 ∷ [])
      ∷ []
unfolding run init write read peek reset stored
run-script = refl

run-init_example : run (init (some wrapped) 4 (some ring)).0 script ≡ Fifo.run 4 [] script
run-init_example = run-init wrapped 4 ring script (omega arith) (omega arith) refl
