-- ===== src/Isotp/Reassembly.antt =====
-- The frames of a segmented message, put through the receiver, give the message back.
use Prim.Native.Nat.{bit_or}
use mathlib.Core.Path.{subst}
use cant.Prelude.{
  inl, inr, Bool-cases, ℕ, zero, suc, ◌+◌, ◌-◌, ◌*◌, ◌%◌, ◌≤◌, ◌<◌, ◌≡◌, sym, ap, ap₂, ◌∙◌, true,
  false, List, [], ◌∷◌, ◌++◌, arith, ltb, if◌then◌else◌, length, get_or, take, drop, memcpy, set,
  replicate, length-memcpy, length-take, length-drop, length-append, take-memcpy, take_padded,
  take-add, min,
}
use cant.Prelude.Bits.{bit_or-second_nibble}
use cant.Isotp.{
  CanFrame, IsotpConfig, TxState, RxState, consecutive_frame, advanced_tx, consecutive_rx,
  segment_size, max_payload,
}

-- Sender and receiver in the middle of a message of `n` bytes of which `o` have been sent.
pub record Linked (tx : TxState) (rx : RxState) (n o : ℕ) : Type 0 where
  pub tx_length : tx.length ≡ n
  pub rx_length : rx.length ≡ n
  pub small : n ≤ max_payload
  pub tx_offset : tx.offset ≡ o
  pub rx_offset : rx.offset ≡ o
  pub within : o ≤ n
  pub nibble : tx.sequence < 16
  pub in_step : rx.sequence ≡ tx.sequence
  pub tx_array : n ≤ length tx.buffer
  pub rx_array : length rx.buffer ≡ max_payload
  pub busy : rx.receiving_multi ≡ ltb o n
  pub so_far : take o rx.buffer ≡ take o tx.buffer

-- The bytes behind the first of a frame into which `s` bytes of `src` were copied.
pub frame_tail :
    (p : ℕ) (src : List ℕ) (m s : ℕ)
    → s ≡ m
    → m ≤ length src
    → take m (drop 1 (memcpy (set (replicate 64 0) 0 p) 1 src s)) ≡ take m src
frame_tail p src m s e h = rw e (take_padded m src _ h)

pub frame_tail_length :
    (p : ℕ) (src : List ℕ) (s : ℕ)
    → s ≤ 63
    → s ≤ length src
    → s ≤ length (drop 1 (memcpy (set (replicate 64 0) 0 p) 1 src s))
frame_tail_length p src s h k =
    omega (arith, length-append (take s src) (drop (1 + s) (p ∷ replicate 63 0)), length-take s src)

module _ (c : IsotpConfig) {tx : TxState} {rx : RxState} {n o : ℕ} (k : Linked tx rx n o)
    (more : o < n) where
  abbrev segment : ℕ
  segment = min 7 (n - o)

  segment_size-tx : segment_size tx.length tx.offset ≡ segment
  segment_size-tx = ground arith

  segment_size-rx : segment_size rx.length rx.offset ≡ segment
  segment_size-rx = ground arith

  consecutive_frame-sequence : get_or (consecutive_frame c tx).bytes 0 0 % 16 ≡ tx.sequence
  unfolding consecutive_frame
  consecutive_frame-sequence = omega (arith, bit_or-second_nibble tx.sequence k.nibble)

  -- The bytes behind the first, as far as the receiver copies them.
  consecutive_frame-bytes :
      take segment (drop 1 (consecutive_frame c tx).bytes) ≡ take segment (drop o tx.buffer)
  unfolding consecutive_frame
  consecutive_frame-bytes =
      frame_tail (bit_or 32 tx.sequence) (drop tx.offset tx.buffer) segment
        (segment_size tx.length tx.offset) segment_size-tx
        (omega (arith, length-drop tx.offset tx.buffer))
      ∙ ap (λ from. take segment (drop from tx.buffer)) k.tx_offset

  consecutive_frame-length : segment ≤ length (drop 1 (consecutive_frame c tx).bytes)
  unfolding consecutive_frame
  consecutive_frame-length = omega (
    arith,
    segment_size-tx,
    length-drop tx.offset tx.buffer,
    frame_tail_length (bit_or 32 tx.sequence) (drop tx.offset tx.buffer)
        (segment_size tx.length tx.offset),
  )

  abbrev received : RxState
  received = consecutive_rx rx (consecutive_frame c tx)

  received-buffer :
      received.buffer ≡ memcpy rx.buffer o (drop 1 (consecutive_frame c tx).bytes) segment
  unfolding consecutive_rx
  received-buffer = ground (arith, consecutive_frame-sequence, segment_size-rx)

  received-state :
      (received.offset ≡ o + segment)
      × (received.length ≡ n)
      × (received.sequence ≡ (tx.sequence + 1) % 16)
      × (received.receiving_multi ≡ ltb (o + segment) n)
  unfolding consecutive_rx
  received-state = ground (arith, consecutive_frame-sequence)

  received-so_far : take (o + segment) received.buffer ≡ take (o + segment) tx.buffer
  received-so_far =
      ap (take (o + segment)) received-buffer
      ∙ take-memcpy rx.buffer o (drop 1 (consecutive_frame c tx).bytes) segment
          (omega (arith, k.rx_array, k.small)) consecutive_frame-length
      ∙ ap₂ ◌++◌ k.so_far consecutive_frame-bytes
      ∙ sym (take-add o segment tx.buffer)

  length-received : length received.buffer ≡ max_payload
  length-received =
      ap length received-buffer
      ∙ length-memcpy rx.buffer o (drop 1 (consecutive_frame c tx).bytes) segment
          (omega (arith, k.rx_array, k.small)) consecutive_frame-length
      ∙ k.rx_array

  -- One consecutive frame brings both sides on by one segment.
  pub step-Linked : Linked (advanced_tx tx) received n (o + segment)
  unfolding advanced_tx
  step-Linked = record {
    tx_length = k.tx_length;
    rx_length = received-state.1;
    small = k.small;
    tx_offset = omega (arith, segment_size-tx, k.tx_offset, k.small);
    rx_offset = received-state.0;
    within = omega arith;
    nibble = omega arith;
    in_step = received-state.2;
    tx_array = k.tx_array;
    rx_array = length-received;
    busy = received-state.3;
    so_far = received-so_far;
  }

-- The consecutive frames that are left, at most `rounds`.
unfoldable pub remaining_frames : IsotpConfig → TxState → ℕ → List CanFrame
remaining_frames c tx zero = []
remaining_frames c tx (suc rounds) =
    let rest = remaining_frames c (advanced_tx tx) rounds in
    if ltb tx.offset tx.length then consecutive_frame c tx ∷ rest else []

unfoldable pub receive_frames : RxState → List CanFrame → RxState
receive_frames rx [] = rx
receive_frames rx (f ∷ fs) = receive_frames (consecutive_rx rx f) fs

-- The receiver has a message of `n` bytes ready that starts as the array `buffer` does.
pub record Complete (rx : RxState) (n : ℕ) (buffer : List ℕ) : Type 0 where
  pub ready : rx.receiving_multi ≡ false
  pub size : rx.length ≡ n
  pub bytes : take n rx.buffer ≡ take n buffer
  pub array : length rx.buffer ≡ max_payload

-- With enough rounds the receiver ends with the whole message.
pub receive_frames-Complete :
    (c : IsotpConfig) (rounds : ℕ) {tx : TxState} {rx : RxState} {n o : ℕ}
    → Linked tx rx n o
    → n - o ≤ 7 * rounds
    → Complete (receive_frames rx (remaining_frames c tx rounds)) n tx.buffer
unfolding remaining_frames receive_frames advanced_tx
receive_frames-Complete c zero {tx} {rx} {n} {o} k h =
    let end : o ≡ n = omega (arith, k.within) in
    record {
      ready = k.busy ∙ ground arith;
      size = k.rx_length;
      bytes = subst (λ m. take m rx.buffer ≡ take m tx.buffer) end k.so_far;
      array = k.rx_array;
    }
receive_frames-Complete c (suc rounds) {tx} {rx} {n} {o} k h = elim (Bool-cases (ltb o n)) [
  | inl more ↦
      let left : ltb tx.offset tx.length ≡ true = ground arith in
      let more' : o < n = ground arith in
      rw left (receive_frames-Complete c rounds (step-Linked c k more') (omega arith))
  | inr done ↦
      let left : ltb tx.offset tx.length ≡ false = ground arith in
      let end : o ≡ n = ground (arith, k.within) in
      rw left record {
        ready = k.busy ∙ done;
        size = k.rx_length;
        bytes = subst (λ m. take m rx.buffer ≡ take m tx.buffer) end k.so_far;
        array = k.rx_array;
      }
]
