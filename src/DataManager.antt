-- ===== src/DataManager.antt =====
-- The data identifiers of src/runtime/diagnostic/data_manager.c and data_manager.h. The static
-- `data_manager` is a record that each function takes and returns. `W` is the state that handlers
-- and callbacks work on; it holds the memory that `data_ptr` points into, as its bytes by address,
-- and the session manager. The buffer that a caller passes is a list. A call under the lock is one
-- step.
pub mod Access
pub mod Table
pub mod Guard
pub mod RoundTrip
mod Tests
use cant.Prelude.{
  ℕ, ◌+◌, ◌-◌, ◌≡◌, Bool, true, false, not, ◌||◌, Option, none, some, List, ◌++◌, ltb, leb, ◌==◌,
  if◌then◌else◌, take, drop, set, replicate,
}
use Prim.Native.Nat.{bit_and}
use cant.Prelude.Table.{find_by, entry_of, shift_down}
use cant.SessionManager.{SessionManager}

-- What the manager reaches of `W`: the memory, which a write replaces, and the sessions.
pub record World (W : Type 0) : Type 0 where
  pub memory : W → List ℕ
  pub with_memory : W → List ℕ → W
  pub sessions : W → SessionManager
  pub memory_written : (w : W) (m : List ℕ) → memory (with_memory w m) ≡ m
  pub sessions_kept : (w : W) (m : List ℕ) → sessions (with_memory w m) ≡ sessions w

-- `DataType`
pub data DataType : Type 0 where
  data_type_uint8 : DataType
  data_type_uint16 : DataType
  data_type_uint32 : DataType
  data_type_int8 : DataType
  data_type_int16 : DataType
  data_type_int32 : DataType
  data_type_float : DataType
  data_type_string : DataType
  data_type_raw : DataType

-- `ScalingMethod`; `scaling_other` is a value outside the enumeration.
pub data ScalingMethod : Type 0 where
  scaling_none : ScalingMethod
  scaling_linear : ScalingMethod
  scaling_inverse : ScalingMethod
  scaling_formula : ScalingMethod
  scaling_table : ScalingMethod
  scaling_other : ℕ → ScalingMethod

-- `DataAccessRight`
abbrev pub data_access_read : ℕ
data_access_read = 0x01

abbrev pub data_access_write : ℕ
data_access_write = 0x02

-- `read_handler`: the state, the buffer and the length it leaves, and whether it has read.
abbrev pub ReadHandler : Type 0 → Type 0
ReadHandler W = W → ℕ → List ℕ → ℕ → W × List ℕ × ℕ × Bool

-- `write_handler`
abbrev pub WriteHandler : Type 0 → Type 0
WriteHandler W = W → ℕ → List ℕ → ℕ → W × Bool

-- `DataIdentifier`; `data_ptr` is an address, `none` for NULL.
pub record DataIdentifier (W : Type 0) : Type 0 where
  pub did : ℕ
  pub type : DataType
  pub length : ℕ
  pub access_rights : ℕ
  pub security_level : ℕ
  pub scaling : ScalingMethod
  pub data_ptr : Option ℕ
  pub read_handler : Option (ReadHandler W)
  pub write_handler : Option (WriteHandler W)

-- `DataManagerConfig`
pub record DataManagerConfig (W : Type 0) : Type 0 where
  pub identifiers : Option (List (DataIdentifier W))
  pub identifier_count : ℕ
  pub access_callback : Option (W → ℕ → ℕ → Bool → W)

-- `DataManager`; `identifiers` is the array of 200.
pub record DataManager (W : Type 0) : Type 0 where
  pub config : DataManagerConfig W
  pub identifiers : List (DataIdentifier W)
  pub identifier_count : ℕ
  pub initialized : Bool

abbrev pub max_identifiers : ℕ
max_identifiers = 200

-- The identifiers in use, which the loops visit.
abbrev pub active : {W : Type 0} → DataManager W → List (DataIdentifier W)
active m = take m.identifier_count m.identifiers

-- The key of an identifier.
abbrev pub did_of : {W : Type 0} → DataIdentifier W → ℕ
did_of x = x.did

-- `find_identifier`, with the index.
abbrev pub find_identifier : {W : Type 0} → DataManager W → ℕ → Option (ℕ × DataIdentifier W)
find_identifier m did = find_by did_of did (active m)

-- The identifiers that `Data_Manager_Init` copies.
unfoldable pub copy_identifiers :
    {W : Type 0} → DataManager W → Option (List (DataIdentifier W)) → ℕ → DataManager W
copy_identifiers m none n = record m { identifier_count = 0 }
copy_identifiers m (some identifiers) n =
    let copy_count = if leb n max_identifiers then n else max_identifiers in
    if ltb 0 n
    then record m {
      identifiers = take copy_count identifiers ++ drop copy_count m.identifiers;
      identifier_count = copy_count;
    }
    else record m { identifier_count = 0 }

-- `Data_Manager_Init`
unfoldable pub init :
    {W : Type 0} → DataManager W → Option (DataManagerConfig W) → DataManager W × Bool
unfolding copy_identifiers
init m none = (m, false)
init m (some config) = (
  record (copy_identifiers (record m { config = config }) config.identifiers
      config.identifier_count) { initialized = true },
  true,
)

abbrev no_identifier : {W : Type 0} → DataIdentifier W
no_identifier = record {
  did = 0;
  type = data_type_uint8;
  length = 0;
  access_rights = 0;
  security_level = 0;
  scaling = scaling_none;
  data_ptr = none;
  read_handler = none;
  write_handler = none;
}

-- `Data_Manager_DeInit`: `memset` to zero.
unfoldable pub deinit : {W : Type 0} → DataManager W
deinit = record {
  config = record { identifiers = none; identifier_count = 0; access_callback = none };
  identifiers = replicate max_identifiers no_identifier;
  identifier_count = 0;
  initialized = false;
}

-- `Data_Manager_AddIdentifier` after the search.
unfoldable pub add_in :
    {W : Type 0}
    → DataManager W
    → DataIdentifier W
    → Option (ℕ × DataIdentifier W)
    → DataManager W × Bool
add_in m x (some found) = (m, false)
add_in m x none = if leb max_identifiers m.identifier_count then (m, false) else (
  record m {
    identifiers = set m.identifiers m.identifier_count x;
    identifier_count = m.identifier_count + 1;
  },
  true,
)

-- `Data_Manager_AddIdentifier`
unfoldable pub add_identifier :
    {W : Type 0} → DataManager W → Option (DataIdentifier W) → DataManager W × Bool
add_identifier m none = (m, false)
add_identifier m (some x) =
    if not m.initialized then (m, false) else add_in m x (find_identifier m x.did)

-- `Data_Manager_RemoveIdentifier` after the search.
unfoldable pub remove_in :
    {W : Type 0} → DataManager W → Option (ℕ × DataIdentifier W) → DataManager W × Bool
remove_in m none = (m, false)
remove_in m (some (i, found)) = (
  record m {
    identifiers = shift_down m.identifiers m.identifier_count i;
    identifier_count = m.identifier_count - 1;
  },
  true,
)

-- `Data_Manager_RemoveIdentifier`
unfoldable pub remove_identifier : {W : Type 0} → DataManager W → ℕ → DataManager W × Bool
remove_identifier m did =
    if not m.initialized then (m, false) else remove_in m (find_identifier m did)

-- `Data_Manager_GetIdentifier`
unfoldable pub get_identifier : {W : Type 0} → DataManager W → ℕ → Option (DataIdentifier W)
get_identifier m did = if not m.initialized then none else entry_of (find_identifier m did)

-- `Data_Manager_GetIdentifierCount`
unfoldable pub get_identifier_count : {W : Type 0} → DataManager W → ℕ
get_identifier_count m = if not m.initialized then 0 else m.identifier_count
