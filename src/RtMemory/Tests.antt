-- ===== src/RtMemory/Tests.antt =====
-- The theorem on pools at a concrete pool.
use cant.Prelude.{◌+◌, ◌≤◌, ◌≡◌, refl, List, [], ◌∷◌, length, arith}
use cant.RtMemory.{RtMemPool, create, aligned}
use cant.RtMemory.Client.{Move, take_block, give_back, run, times, blocks, free_list}
use cant.RtMemory.Sharing.{fresh, run-create}

-- Three blocks of 40 bytes, which take 64.
abbrev pool : RtMemPool
pool = fresh 4096 (aligned 40) 3

abbrev moves : List Move
moves = take_block ∷ take_block ∷ give_back 1 ∷ take_block ∷ []

run-create_example :
    let (p', held) = run (pool, []) moves in
    (times 4160 (free_list p') + times 4160 held ≡ times 4160 (blocks pool))
    × (times 4160 (blocks pool) ≤ 1)
    × (p'.free_count + length held ≡ 3)
unfolding create aligned
run-create_example =
    run-create 40 3 4096 pool moves 4160 refl (omega arith) (omega arith) (omega arith)
      (omega arith)
