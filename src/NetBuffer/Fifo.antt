-- ===== src/NetBuffer/Fifo.antt =====
-- What the buffer promises: a queue of at most `cap` bytes, oldest first, and a client's calls.
use cant.Prelude.{
  ℕ, ◌-◌, Bool, true, false, List, [], ◌∷◌, ◌++◌, ltb, ◌==◌, if◌then◌else◌, length, take, drop,
  replicate,
}

-- All of the first `n` bytes of `src`, or nothing if they do not fit.
unfoldable pub put : ℕ → List ℕ → List ℕ → ℕ → List ℕ × Bool
put cap q src n =
    if n == 0
    then (q, false)
    else if ltb (cap - length q) n
    then (q, false)
    else (q ++ take n src, true)

-- The oldest `n` bytes at the start of `out`, or nothing if there are fewer.
unfoldable pub look : List ℕ → List ℕ → ℕ → List ℕ × Bool
look q out n =
    if n == 0
    then (out, false)
    else if ltb (length q) n
    then (out, false)
    else (take n q ++ drop n out, true)

unfoldable pub get : List ℕ → List ℕ → ℕ → List ℕ × List ℕ × Bool
get q out n =
    if n == 0
    then (q, out, false)
    else if ltb (length q) n
    then (q, out, false)
    else (drop n q, take n q ++ drop n out, true)

-- A client's calls, and what it sees of each: the result and its array.
pub data Call : Type 0 where
  put_call : List ℕ → Call
  get_call : ℕ → Call
  look_call : ℕ → Call
  clear_call : Call

abbrev pub Reply : Type 0
Reply = Bool × List ℕ

unfoldable pub run : ℕ → List ℕ → List Call → List Reply
run cap q [] = []
run cap q (put_call src ∷ cs) =
    let (q', done) = put cap q src (length src) in (done, []) ∷ run cap q' cs
run cap q (get_call n ∷ cs) =
    let (q', out, done) = get q (replicate n 0) n in (done, out) ∷ run cap q' cs
run cap q (look_call n ∷ cs) =
    let (out, done) = look q (replicate n 0) n in (done, out) ∷ run cap q cs
run cap q (clear_call ∷ cs) = (true, []) ∷ run cap [] cs
