-- ===== src/DataManager/Access.antt =====
-- Reading and writing data of data_manager.c. The arithmetic on floats that the scaling does is an
-- argument: `scale` gives the buffer after the scaling of its first float.
use cant.Prelude.{
  ℕ, Bool, true, false, not, ◌&&◌, Option, none, some, List, ◌++◌, ltb, leb, ◌==◌, if◌then◌else◌,
  take, drop, length,
}
use Prim.Native.Nat.{bit_and}
use cant.SessionManager.Calls.{get_state}
use cant.DataManager.{
  World, DataType, data_type_float, ScalingMethod, scaling_none, scaling_linear, scaling_inverse,
  scaling_formula, scaling_table, scaling_other, DataIdentifier, ReadHandler, WriteHandler,
  DataManager, get_identifier, data_access_read, data_access_write,
}

-- The scaling of a float: the method, whether to raw, and the buffer.
abbrev pub FloatScaling : Type 0
FloatScaling = ScalingMethod → Bool → List ℕ → List ℕ

-- A float is scaled, other data is not.
abbrev pub scale_float : FloatScaling → ScalingMethod → Bool → DataType → List ℕ → List ℕ
scale_float scale s to_raw data_type_float bytes = scale s to_raw bytes
scale_float scale s to_raw _ bytes = bytes

-- `apply_scaling`
unfoldable pub apply_scaling :
    {W : Type 0} → FloatScaling → DataIdentifier W → List ℕ → Bool → List ℕ × Bool
apply_scaling scale x bytes to_raw = elim (x.scaling) [
  | scaling_none ↦ (bytes, true)
  | scaling_linear ↦ (scale_float scale scaling_linear to_raw x.type bytes, true)
  | scaling_inverse ↦ (scale_float scale scaling_inverse to_raw x.type bytes, true)
  | scaling_formula ↦ (bytes, true)
  | scaling_table ↦ (bytes, true)
  | scaling_other n ↦ (bytes, false)
]

-- Whether rights have a bit.
abbrev pub grants : ℕ → ℕ → Bool
grants rights access = not (bit_and rights access == 0)

-- `memcpy` of `bytes` to the front of a buffer.
abbrev pub copy_to : List ℕ → List ℕ → List ℕ
copy_to bytes buffer = bytes ++ drop (length bytes) buffer

-- `memcpy` of `n` bytes from an address of the memory.
abbrev pub load : List ℕ → ℕ → ℕ → List ℕ
load memory p n = take n (drop p memory)

-- `memcpy` to an address of the memory.
abbrev pub store : List ℕ → ℕ → List ℕ → List ℕ
store memory p bytes = take p memory ++ copy_to bytes (drop p memory)

module _ {W : Type 0} (world : World W) (scale : FloatScaling) where
  -- The callback, if there is one.
  unfoldable pub notify : DataManager W → W → ℕ → ℕ → W
  notify m w did access = elim (m.config.access_callback) [
    | none ↦ w
    | some f ↦ f w did access true
  ]

  -- The handler, or the copy from memory.
  unfoldable pub fetch :
      DataIdentifier W → W → List ℕ → ℕ → Option (ReadHandler W) → Option ℕ → W × List ℕ × ℕ × Bool
  fetch x w buffer n (some f) p = f w x.did buffer n
  fetch x w buffer n none none = (w, buffer, n, false)
  fetch x w buffer n none (some p) =
      if leb x.length n
      then (w, copy_to (load (world.memory w) p x.length) buffer, x.length, true)
      else (w, buffer, n, false)

  -- The scaling and the callback after a read.
  unfoldable pub finish_read :
      DataManager W → DataIdentifier W → W × List ℕ × ℕ × Bool → W × List ℕ × ℕ × Bool
  finish_read m x (w, buffer, n, result) =
      let (buffer', scaled) = apply_scaling scale x buffer false in
      if result
      then (notify m w x.did data_access_read, buffer', n, scaled)
      else (w, buffer, n, false)

  -- `Data_Manager_ReadData` for the identifier that the search gives.
  unfoldable pub read_in :
      DataManager W → W → List ℕ → ℕ → Option (DataIdentifier W) → W × List ℕ × ℕ × Bool
  read_in m w buffer n none = (w, buffer, n, false)
  read_in m w buffer n (some x) =
      if not (grants x.access_rights data_access_read)
      then (w, buffer, n, false)
      else if ltb (get_state (world.sessions w)).security_level x.security_level
      then (w, buffer, n, false)
      else finish_read m x (fetch x w buffer n x.read_handler x.data_ptr)

  -- `Data_Manager_ReadData`, with what its two pointers point to, unless they are NULL: what it
  -- leaves there, and its result.
  unfoldable pub read_data :
      DataManager W → W → ℕ → Option (List ℕ) → Option ℕ → W × Option (List ℕ) × Option ℕ × Bool
  read_data m w did none n = (w, none, n, false)
  read_data m w did (some buffer) none = (w, some buffer, none, false)
  read_data m w did (some buffer) (some n) =
      let (w', buffer', n', result) = read_in m w buffer n (get_identifier m did) in
      (w', some buffer', some n', result)

  -- The handler, or the copy to memory, of `n` bytes that have been scaled.
  unfoldable pub put :
      DataIdentifier W → W → ℕ → List ℕ → Option (WriteHandler W) → Option ℕ → W × Bool
  put x w n bytes (some f) p = f w x.did bytes n
  put x w n bytes none none = (w, false)
  put x w n bytes none (some p) =
      if n == x.length
      then (world.with_memory w (store (world.memory w) p (take n bytes)), true)
      else (w, false)

  -- The callback after a write.
  unfoldable pub finish_write : DataManager W → DataIdentifier W → W × Bool → W × Bool
  finish_write m x (w, result) =
      if result then (notify m w x.did data_access_write, true) else (w, false)

  -- `Data_Manager_WriteData` for the identifier that the search gives. `stack` is what the array
  -- `scaled_data` holds before the copy to it.
  unfoldable pub write_in :
      DataManager W → W → List ℕ → List ℕ → Option (DataIdentifier W) → W × Bool
  write_in m w stack bytes none = (w, false)
  write_in m w stack bytes (some x) =
      let (scaled, done) = apply_scaling scale x (copy_to bytes stack) true in
      if not (grants x.access_rights data_access_write)
      then (w, false)
      else if ltb (get_state (world.sessions w)).security_level x.security_level
      then (w, false)
      else if ltb 256 (length bytes)
      then (w, false)
      else if not done
      then (w, false)
      else finish_write m x (put x w (length bytes) scaled x.write_handler x.data_ptr)

  -- `Data_Manager_WriteData` of the bytes at a pointer, which may be NULL; their number is `length`.
  unfoldable pub write_data : DataManager W → W → List ℕ → ℕ → Option (List ℕ) → W × Bool
  write_data m w stack did none = (w, false)
  write_data m w stack did (some bytes) = write_in m w stack bytes (get_identifier m did)

  -- `Data_Manager_HasAccess`
  unfoldable pub has_access : DataManager W → W → ℕ → ℕ → Bool
  has_access m w did access = elim (get_identifier m did) [
    | none ↦ false
    | some x ↦
        grants x.access_rights access
        && leb x.security_level (get_state (world.sessions w)).security_level
  ]
