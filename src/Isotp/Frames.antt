-- ===== src/Isotp/Frames.antt =====
-- The bytes of the frames that the sender builds, as the receiver reads them.
use Prim.Native.Nat.{bit_or}
use cant.Prelude.{
  ℕ, ◌+◌, ◌*◌, ◌/◌, ◌%◌, ◌≤◌, ◌<◌, ◌≡◌, refl, ap₂, ◌∙◌, List, arith, length, get_or, take, drop,
  replicate, length-take, length-append, take_padded,
}
use cant.Prelude.Bits.{bit_or-zero_nibble, bit_or-first_nibble, bit_or-second_nibble, bit_or-join}
use cant.Isotp.{
  IsotpConfig, TxState, single_frame, first_frame, consecutive_frame, advanced_tx, first_length,
  max_payload,
}
use cant.Isotp.Reassembly.{frame_tail, frame_tail_length}
use cant.Prelude.Words.{u8}

-- The first byte of each frame that the sender builds: its type and its low nibble.
pub first_frame-head :
    (c : IsotpConfig) (src : List ℕ) (n : ℕ)
    → get_or (first_frame c src n).bytes 0 0 ≡ 16 + n / 256 % 16
unfolding first_frame
first_frame-head c src n = bit_or-first_nibble (n / 256 % 16) (omega arith)

pub single_frame-head :
    (c : IsotpConfig) (src : List ℕ) (n : ℕ) → n ≤ 7 → get_or (single_frame c src n).bytes 0 0 ≡ n
unfolding single_frame
single_frame-head c src n h = omega (arith, bit_or-zero_nibble n (omega arith))

pub consecutive_frame-head :
    (c : IsotpConfig) (tx : TxState)
    → tx.sequence < 16
    → get_or (consecutive_frame c tx).bytes 0 0 ≡ 32 + tx.sequence
unfolding consecutive_frame
consecutive_frame-head c tx h = bit_or-second_nibble tx.sequence h

pub single_frame-id : (c : IsotpConfig) (src : List ℕ) (n : ℕ) → (single_frame c src n).id ≡ c.tx_id
unfolding single_frame
single_frame-id c src n = refl

pub single_frame-bytes :
    (c : IsotpConfig) (src : List ℕ) (n : ℕ)
    → n ≤ length src
    → take n (drop 1 (single_frame c src n).bytes) ≡ take n src
unfolding single_frame
single_frame-bytes c src n h = frame_tail (u8 (bit_or 0 n)) src n n refl h

pub single_frame-length :
    (c : IsotpConfig) (src : List ℕ) (n : ℕ)
    → n ≤ 7
    → n ≤ length src
    → n ≤ length (drop 1 (single_frame c src n).bytes)
unfolding single_frame
single_frame-length c src n h k = frame_tail_length (u8 (bit_or 0 n)) src n (omega arith) k

pub first_frame-id : (c : IsotpConfig) (src : List ℕ) (n : ℕ) → (first_frame c src n).id ≡ c.tx_id
unfolding first_frame
first_frame-id c src n = refl

-- The six bytes of the message in its first frame.
pub first_frame-bytes :
    (c : IsotpConfig) (src : List ℕ) (n : ℕ)
    → 6 ≤ length src
    → (take 6 (drop 2 (first_frame c src n).bytes) ≡ take 6 src)
      × (6 ≤ length (drop 2 (first_frame c src n).bytes))
unfolding first_frame
first_frame-bytes c src n h = (
  take_padded 6 src _ h,
  omega (arith, length-append (take 6 src) (replicate 56 0), length-take 6 src),
)

pub consecutive_frame-id : (c : IsotpConfig) (tx : TxState) → (consecutive_frame c tx).id ≡ c.tx_id
unfolding consecutive_frame
consecutive_frame-id c tx = refl

pub advanced_tx-nibble : (tx : TxState) → (advanced_tx tx).sequence < 16
unfolding advanced_tx
advanced_tx-nibble tx = omega arith

pub first_length-first_frame :
    (c : IsotpConfig) (src : List ℕ) (n : ℕ)
    → n ≤ max_payload
    → first_length (first_frame c src n) ≡ n
first_length-first_frame c src n h =
    ap₂ (λ a b. bit_or (a % 16 * 256) b) (first_frame-head c src n) (second c src n) ∙ nibbles n h
  where
    second :
        (c : IsotpConfig) (src : List ℕ) (n : ℕ) → get_or (first_frame c src n).bytes 1 0 ≡ n % 256
    second c src n = unfold first_frame in refl

    nibbles : (n : ℕ) → n ≤ max_payload → bit_or ((16 + n / 256 % 16) % 16 * 256) (n % 256) ≡ n
    nibbles n h =
        omega (arith, bit_or-join ((16 + n / 256 % 16) % 16) (n % 256) (omega arith) (omega arith))
