-- ===== src/NetBuffer/Refine.antt =====
-- A valid `NetBuffer` behaves as the bounded queue of the bytes that wait in it.
use cant.Prelude.{
  ℕ, ◌+◌, ◌-◌, ◌≤◌, ◌<◌, ◌^◌, ◌≡◌, refl, ap, inl, inr, true, false, Option, some, List, [], ◌++◌,
  arith, ltb, ◌==◌, if◌then◌else◌, Bool-cases, length, take, drop, replicate, memcpy,
  length-replicate, length-memcpy,
}
use cant.NetBuffer.{
  NetBuffer, free_of, cleared, init, store, stored, load, consume, write, read, peek,
}
use cant.NetBuffer.Inv.{IsValid, contents, length-contents}
use cant.NetBuffer.Store.{store-IsValid, contents-store}
use cant.NetBuffer.Load.{consume-IsValid, contents-consume, load_lem}
use cant.NetBuffer.Fifo
use cant.NetBuffer.Fifo.{Call, Reply, put_call, get_call, look_call, clear_call}

-- `p` points to a valid buffer of capacity `cap` in which the bytes `q` wait.
pub record Holds (cap : ℕ) (q : List ℕ) (p : Option NetBuffer) : Type 0 where
  pub buffer : NetBuffer
  pub array : List ℕ
  pub there : p ≡ some buffer
  pub valid : IsValid buffer array
  pub capacity : buffer.size ≡ cap
  pub waiting : contents buffer array ≡ q

abbrev pub holds : {b : NetBuffer} {d : List ℕ} → IsValid b d → Holds b.size (contents b d) (some b)
holds {b} {d} v = record {
  buffer = b;
  array = d;
  there = refl;
  valid = v;
  capacity = refl;
  waiting = refl;
}

module _ {b : NetBuffer} {d : List ℕ} (v : IsValid b d) (n : ℕ) where
  free_of-eq : free_of b ≡ b.size - length (contents b d)
  free_of-eq = omega (arith, length-contents v)

  flagged-IsValid : IsValid (record b { overflow = true }) d
  flagged-IsValid = ground arith

  write_held :
      (src : List ℕ)
      → write (some b) (some src) n ≡ (
          if n == 0
          then (some b, false)
          else if ltb (b.size - length (contents b d)) n
          then (some (record b { overflow = true }), false)
          else (some (store b d src n), true))
  unfolding write
  write_held src = ground (arith, free_of-eq)

  read_held :
      (out : List ℕ)
      → read (some b) (some out) n ≡ (
          if n == 0
          then (some b, some out, false)
          else if ltb (length (contents b d)) n
          then (some b, some out, false)
          else (some (consume b n), some (load b d out n), true))
  unfolding read
  read_held out = ground (arith, length-contents v)

  peek_held :
      (out : List ℕ)
      → peek (some b) (some out) n ≡ (
          if n == 0
          then (some out, false)
          else if ltb (length (contents b d)) n
          then (some out, false)
          else (some (load b d out n), true))
  unfolding peek
  peek_held out = ground (arith, length-contents v)

  stored_holds :
      (src : List ℕ)
      → b.count + n ≤ b.size
      → n ≤ length src
      → Holds b.size (contents b d ++ take n src) (some (store b d src n))
  unfolding store
  stored_holds src fits h = record {
    buffer = store b d src n;
    array = stored b d src n;
    there = refl;
    valid = store-IsValid v src n fits h;
    capacity = refl;
    waiting = contents-store v src n fits h;
  }

  consumed_holds : n ≤ b.count → Holds b.size (drop n (contents b d)) (some (consume b n))
  unfolding consume
  consumed_holds there = record {
    buffer = consume b n;
    array = d;
    there = refl;
    valid = consume-IsValid v n there;
    capacity = refl;
    waiting = contents-consume v n there;
  }

-- `NetBuffer_Write`: from a valid buffer and an array of at least `n` bytes the result and the
-- bytes waiting afterwards are those of the bounded queue, and the buffer stays valid.
pub write_refines :
    {b : NetBuffer} {d : List ℕ} (src : List ℕ) (n : ℕ)
    → IsValid b d
    → n ≤ length src
    → let (p, done) = write (some b) (some src) n in
      let (q, accepted) = Fifo.put b.size (contents b d) src n in
      Holds b.size q p × (done ≡ accepted)
unfolding Fifo.put
write_refines {b} {d} src n v h = elim (Bool-cases (n == 0)) [
  | inl empty ↦ rw (write_held v n src, empty) (holds v, refl)
  | inr some_bytes ↦
      rw (write_held v n src, some_bytes)
        (elim (Bool-cases (ltb (b.size - length (contents b d)) n)) [
          | inl full ↦ rw full (holds (flagged-IsValid v n), refl)
          | inr room ↦
              let fits : b.count + n ≤ b.size = ground (arith, length-contents v) in
              rw room (stored_holds v n src fits h, refl)
        ])
]

-- `NetBuffer_Read`: from a valid buffer into an array of at least `n` bytes the result, the array
-- and the bytes waiting afterwards are those of the bounded queue, and the buffer stays valid.
pub read_refines :
    {b : NetBuffer} {d : List ℕ} (out : List ℕ) (n : ℕ)
    → IsValid b d
    → n ≤ length out
    → let (p, out', done) = read (some b) (some out) n in
      let (q, wanted, accepted) = Fifo.get (contents b d) out n in
      Holds b.size q p × (out' ≡ some wanted) × (done ≡ accepted)
unfolding Fifo.get
read_refines {b} {d} out n v h = elim (Bool-cases (n == 0)) [
  | inl empty ↦ rw (read_held v n out, empty) (holds v, refl, refl)
  | inr some_bytes ↦
      rw (read_held v n out, some_bytes)
        (elim (Bool-cases (ltb (length (contents b d)) n)) [
          | inl short ↦ rw short (holds v, refl, refl)
          | inr enough ↦
              let there : n ≤ b.count = ground (arith, length-contents v) in
              rw enough (consumed_holds v n there, ap some (load_lem v n there out h), refl)
        ])
]

-- `NetBuffer_Peek`: into an array of at least `n` bytes it gives what a read would, and there is
-- no new buffer.
pub peek_refines :
    {b : NetBuffer} {d : List ℕ} (out : List ℕ) (n : ℕ)
    → IsValid b d
    → n ≤ length out
    → let (out', done) = peek (some b) (some out) n in
      let (wanted, accepted) = Fifo.look (contents b d) out n in
      (out' ≡ some wanted) × (done ≡ accepted)
unfolding Fifo.look
peek_refines {b} {d} out n v h = elim (Bool-cases (n == 0)) [
  | inl empty ↦ rw (peek_held v n out, empty) (refl, refl)
  | inr some_bytes ↦
      rw (peek_held v n out, some_bytes)
        (elim (Bool-cases (ltb (length (contents b d)) n)) [
          | inl short ↦ rw short (refl, refl)
          | inr enough ↦
              let there : n ≤ b.count = ground (arith, length-contents v) in
              rw enough (ap some (load_lem v n there out h), refl)
        ])
]

pub cleared-Holds : {b : NetBuffer} {d : List ℕ} → IsValid b d → Holds b.size [] (some (cleared b))
unfolding cleared
cleared-Holds {b} {d} v = record {
  buffer = cleared b;
  array = memcpy d 0 (replicate b.size 0) b.size;
  there = refl;
  valid =
      ground
        (arith, length-memcpy d 0 (replicate b.size 0) b.size, length-replicate {A = ℕ} b.size 0);
  capacity = refl;
  waiting = refl;
}

-- `NetBuffer_Init` with a size that is not 0 and a block of that size from `malloc` succeeds and
-- gives an empty valid buffer, whatever the structure and the block held before.
pub init_refines :
    (b : NetBuffer) (size : ℕ) (d : List ℕ)
    → 0 < size
    → size < 2 ^ 32
    → length d ≡ size
    → Holds size [] (init (some b) size (some d)).0 × ((init (some b) size (some d)).1 ≡ true)
unfolding init
init_refines b size d pos small sized =
    let ne : (size == 0) ≡ false = ground arith in
    rw ne (
      record {
        buffer = cleared (record b { bytes = some d; size = size });
        array = memcpy d 0 (replicate size 0) size;
        there = refl;
        valid =
            ground
              (arith, length-memcpy d 0 (replicate size 0) size, length-replicate {A = ℕ} size 0);
        capacity = refl;
        waiting = refl;
      },
      refl,
    )
