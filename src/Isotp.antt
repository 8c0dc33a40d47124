-- ===== src/Isotp.antt =====
-- The ISO 15765-2 transport of src/runtime/protocols/isotp.c and isotp.h, and the CAN frame of
-- src/runtime/drivers/can_driver.h. A byte is a number below 256 and `size_t` has 64 bits. The CAN
-- driver is a parameter: a state with `can_transmit` and `can_receive`. The pointer to the `ISOTP`
-- and the pointers that the functions take are `Option`s. `now` is the tick count read by the
-- timers. `enter_critical` and `exit_critical` make each call one step.
pub mod Calls
pub mod Reassembly
pub mod Frames
pub mod Delivery
pub mod Wire
pub mod Faults
mod Tests
use Prim.Native.Nat.{bit_or}
use cant.Prelude.{
  ℕ, ◌+◌, ◌-◌, ◌*◌, ◌/◌, ◌%◌, ◌^◌, Bool, true, false, not, ◌&&◌, List, ltb, leb, ◌==◌,
  if◌then◌else◌, get_or, set, drop, replicate, memcpy,
}
use cant.Prelude.Words.{u8}
use cant.Timer
use cant.Timer.{Timer}

-- `CANFrame`; `bytes` is `data[64]`.
pub record CanFrame : Type 0 where
  pub id : ℕ
  pub dlc : ℕ
  pub is_extended : Bool
  pub is_fd : Bool
  pub is_remote : Bool
  pub bytes : List ℕ
  pub timestamp : ℕ

-- `ISOTPFrameType`
abbrev pub single_frame_type : ℕ
single_frame_type = 0

abbrev pub first_frame_type : ℕ
first_frame_type = 1

abbrev pub consecutive_frame_type : ℕ
consecutive_frame_type = 2

abbrev pub flow_control_type : ℕ
flow_control_type = 3

abbrev pub max_payload : ℕ
max_payload = 4095

-- `ISOTPConfig`
pub record IsotpConfig : Type 0 where
  pub rx_id : ℕ
  pub tx_id : ℕ
  pub extended_addressing : Bool
  pub stmin : ℕ
  pub blocksize : ℕ
  pub timeout_ms : ℕ

-- `tx_state`
pub record TxState : Type 0 where
  pub buffer : List ℕ
  pub length : ℕ
  pub offset : ℕ
  pub sequence : ℕ
  pub timer : Timer
  pub waiting_fc : Bool
  pub block_counter : ℕ

-- `rx_state`
pub record RxState : Type 0 where
  pub buffer : List ℕ
  pub length : ℕ
  pub offset : ℕ
  pub sequence : ℕ
  pub timer : Timer
  pub receiving_multi : Bool

-- `struct ISOTP` over a driver's state
pub record Isotp (D : Type 0) : Type 0 where
  pub can_driver : D
  pub config : IsotpConfig
  pub tx_state : TxState
  pub rx_state : RxState

-- A frame with the named fields and all other bytes zero.
abbrev pub blank : ℕ → ℕ → CanFrame
blank id dlc = record {
  id = id;
  dlc = dlc;
  is_extended = false;
  is_fd = false;
  is_remote = false;
  bytes = replicate 64 0;
  timestamp = 0;
}

-- size_t a - b
abbrev pub sub_size : ℕ → ℕ → ℕ
sub_size a b = (a + 2 ^ 64 - b) % 2 ^ 64

-- The frame that `send_single_frame` builds.
pub single_frame : IsotpConfig → List ℕ → ℕ → CanFrame
single_frame c src n =
    let f = blank c.tx_id (u8 (n + 1)) in
    record f { bytes = memcpy (set f.bytes 0 (u8 (bit_or (single_frame_type * 16) n))) 1 src n }

-- The frame that `send_first_frame` builds.
pub first_frame : IsotpConfig → List ℕ → ℕ → CanFrame
first_frame c src n =
    let f = blank c.tx_id 8 in
    record f {
      bytes =
          memcpy (set (set f.bytes 0 (bit_or (first_frame_type * 16) (n / 256 % 16))) 1 (n % 256)) 2
            src 6;
    }

-- The bytes of the next segment: at most seven.
abbrev pub segment_size : ℕ → ℕ → ℕ
segment_size length offset = let r = sub_size length offset in if ltb 7 r then 7 else r

-- The frame that `send_consecutive_frame` builds.
pub consecutive_frame : IsotpConfig → TxState → CanFrame
consecutive_frame c tx =
    let n = segment_size tx.length tx.offset in
    let f = blank c.tx_id (u8 (n + 1)) in
    record f {
      bytes =
          memcpy (set f.bytes 0 (bit_or (consecutive_frame_type * 16) tx.sequence)) 1
            (drop tx.offset tx.buffer) n;
    }

-- The flow control frame that answers a first frame.
pub flow_control : IsotpConfig → CanFrame
flow_control c =
    let f = blank c.tx_id 3 in
    record f {
      bytes = set (set (set f.bytes 0 (flow_control_type * 16)) 1 c.blocksize) 2 (u8 c.stmin);
    }

-- What `send_first_frame` and `send_consecutive_frame` leave in `tx_state`.
pub started_tx : IsotpConfig → ℕ → TxState → ℕ → TxState
unfolding Timer.start
started_tx c now tx n = record tx {
  length = n;
  offset = 6;
  sequence = 1;
  waiting_fc = true;
  timer = record { start_time = now; timeout = c.timeout_ms; running = true };
}

pub advanced_tx : TxState → TxState
advanced_tx tx = record tx {
  offset = (tx.offset + segment_size tx.length tx.offset) % 2 ^ 64;
  sequence = (tx.sequence + 1) % 16;
}

-- `process_single_frame` on `rx_state`
pub single_rx : RxState → CanFrame → RxState
single_rx rx f =
    let n = get_or f.bytes 0 0 % 16 in
    if ltb 0 n && leb n 7
    then record rx {
      buffer = memcpy rx.buffer 0 (drop 1 f.bytes) n;
      length = n;
      receiving_multi = false;
    }
    else rx

-- `length` in `process_first_frame`
abbrev pub first_length : CanFrame → ℕ
first_length f = bit_or (get_or f.bytes 0 0 % 16 * 256) (get_or f.bytes 1 0)

-- `process_first_frame` on `rx_state`
pub first_rx : RxState → CanFrame → RxState
first_rx rx f = record rx {
  buffer = memcpy rx.buffer 0 (drop 2 f.bytes) 6;
  length = first_length f;
  offset = 6;
  sequence = 1;
  receiving_multi = true;
}

-- `process_consecutive_frame` on `rx_state`
pub consecutive_rx : RxState → CanFrame → RxState
consecutive_rx rx f =
    let n = segment_size rx.length rx.offset in
    let next = (rx.offset + n) % 2 ^ 64 in
    if not rx.receiving_multi
    then rx
    else if not (get_or f.bytes 0 0 % 16 == rx.sequence)
    then record rx { receiving_multi = false }
    else record rx {
      buffer = memcpy rx.buffer rx.offset (drop 1 f.bytes) n;
      offset = next;
      sequence = (rx.sequence + 1) % 16;
      receiving_multi = if leb rx.length next then false else rx.receiving_multi;
    }
