-- ===== src/NetBuffer/Run.antt =====
-- Sequences of calls on a `NetBuffer` against the bounded queue.
use cant.Prelude.{
  ℕ, ◌≤◌, ◌<◌, ◌^◌, ◌≡◌, refl, ap, true, Option, some, List, [], ◌∷◌, arith, length, replicate,
  length-replicate,
}
use mathlib.Core.Option.{get_or}
use cant.NetBuffer.{NetBuffer, reset, init, write, read, peek}
use cant.NetBuffer.Fifo
use cant.NetBuffer.Fifo.{Call, Reply, put_call, get_call, look_call, clear_call}
use cant.NetBuffer.Refine.{
  Holds, cleared-Holds, write_refines, read_refines, peek_refines, init_refines,
}

-- The calls of Fifo, made on a buffer; a read or a peek of `n` bytes gets a cleared array of `n`.
unfoldable pub run : Option NetBuffer → List Call → List Reply
run p [] = []
run p (put_call src ∷ cs) =
    let (p', done) = write p (some src) (length src) in (done, []) ∷ run p' cs
run p (get_call n ∷ cs) =
    let (p', out, done) = read p (some (replicate n 0)) n in (done, get_or out []) ∷ run p' cs
run p (look_call n ∷ cs) =
    let (out, done) = peek p (some (replicate n 0)) n in (done, get_or out []) ∷ run p cs
run p (clear_call ∷ cs) = (true, []) ∷ run (reset p) cs

module _ {cap : ℕ} {q : List ℕ} {p : Option NetBuffer} (h : Holds cap q p) where
  write_holds :
      (src : List ℕ) (n : ℕ)
      → n ≤ length src
      → Holds cap (Fifo.put cap q src n).0 (write p (some src) n).0
        × ((write p (some src) n).1 ≡ (Fifo.put cap q src n).1)
  write_holds src n le = rw (h.there, ← h.capacity, ← h.waiting) (write_refines src n h.valid le)

  read_holds :
      (out : List ℕ) (n : ℕ)
      → n ≤ length out
      → Holds cap (Fifo.get q out n).0 (read p (some out) n).0
        × ((read p (some out) n).1 ≡ some (Fifo.get q out n).1)
        × ((read p (some out) n).2 ≡ (Fifo.get q out n).2)
  read_holds out n le = rw (h.there, ← h.capacity, ← h.waiting) (read_refines out n h.valid le)

  peek_holds :
      (out : List ℕ) (n : ℕ)
      → n ≤ length out
      → ((peek p (some out) n).0 ≡ some (Fifo.look q out n).0)
        × ((peek p (some out) n).1 ≡ (Fifo.look q out n).1)
  peek_holds out n le = rw (h.there, ← h.waiting) (peek_refines out n h.valid le)

  reset_holds : Holds cap [] (reset p)
  unfolding reset
  reset_holds = rw (h.there, ← h.capacity) (cleared-Holds h.valid)

zeroes : (n : ℕ) → n ≤ length {A = ℕ} (replicate n 0)
zeroes n = omega (arith, length-replicate {A = ℕ} n 0)

run_holds :
    (cs : List Call) {cap : ℕ} {q : List ℕ} (p : Option NetBuffer)
    → Holds cap q p
    → run p cs ≡ Fifo.run cap q cs
unfolding run Fifo.run
run_holds [] p h = refl
run_holds (put_call src ∷ cs) p h =
    let (h', done) = write_holds h src (length src) (omega arith) in
    let rest = run_holds cs _ h' in cc
run_holds (get_call n ∷ cs) p h =
    let (h', out, done) = read_holds h (replicate n 0) n (zeroes n) in
    let rest = run_holds cs _ h' in cc (ap (λ o. get_or o []) out)
run_holds (look_call n ∷ cs) p h =
    let (out, done) = peek_holds h (replicate n 0) n (zeroes n) in
    let rest = run_holds cs p h in cc (ap (λ o. get_or o []) out)
run_holds (clear_call ∷ cs) p h = let rest = run_holds cs _ (reset_holds h) in cc

-- From a buffer that `NetBuffer_Init` has set up over any array that is not empty, no sequence of
-- writes, reads, peeks and resets can be told from the bounded queue of that capacity.
pub run-init :
    (b : NetBuffer) (size : ℕ) (d : List ℕ) (cs : List Call)
    → 0 < size
    → size < 2 ^ 32
    → length d ≡ size
    → run (init (some b) size (some d)).0 cs ≡ Fifo.run size [] cs
run-init b size d cs pos small sized = run_holds cs _ (init_refines b size d pos small sized).0
