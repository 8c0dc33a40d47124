-- ===== src/DataManager/Tests.antt =====
-- The theorems on data identifiers at concrete inputs.
use cant.Prelude.{
  ℕ, ◌≡◌, ◌⊎◌, refl, true, false, none, some, List, [], ◌∷◌, ◌++◌, drop, arith, replicate,
}
use cant.Prelude.Table.{lookup, find_by}
use cant.SessionManager.{SessionManager, session_default}
use cant.SessionManager.Calls
use cant.DataManager.{
  World, DataIdentifier, DataManager, data_type_uint16, scaling_none, deinit, get_identifier,
  add_identifier, remove_identifier, data_access_read, data_access_write,
}
use cant.DataManager.Access.{FloatScaling, read_data, write_data, has_access}
use cant.DataManager.Table.{IsValid, remove_identifier-add_identifier}
use cant.DataManager.Guard.{has_access-refused}
use cant.DataManager.RoundTrip.{IsPlain, read_data-write_data}

-- A state that is the session manager and the memory.
abbrev State : Type 0
State = SessionManager × List ℕ

abbrev world : World State
world = record {
  memory = λ w. w.1;
  with_memory = λ w m. (w.0, m);
  sessions = λ w. w.0;
  memory_written = λ w m. refl;
  sessions_kept = λ w m. refl;
}

abbrev manager : SessionManager
manager = record Calls.deinit {
  state = record {
    active_session = session_default;
    session_start_time = 0;
    last_activity_time = 0;
    security_level = 1;
    suppress_response = false;
    session_locked = false;
  };
  initialized = true;
}

abbrev scale : FloatScaling
scale s to_raw bytes = bytes

abbrev identifier : ℕ → ℕ → DataIdentifier State
identifier did level = record {
  did = did;
  type = data_type_uint16;
  length = 2;
  access_rights = 3;
  security_level = level;
  scaling = scaling_none;
  data_ptr = some 1;
  read_handler = none;
  write_handler = none;
}

abbrev data_manager : DataManager State
data_manager = record deinit {
  identifiers = identifier 0xF190 1 ∷ identifier 0xF187 5 ∷ replicate 198 (identifier 0 0);
  identifier_count = 2;
  initialized = true;
}

abbrev start : State
start = (manager, 0 ∷ 0 ∷ 0 ∷ 0 ∷ [])

data_manager-IsValid : IsValid data_manager
unfolding deinit lookup
data_manager-IsValid = record { sized = refl; bounded = omega arith; distinct = (refl, (refl, tt)) }

remove_identifier-add_identifier_example :
    let (m', added) = add_identifier data_manager (some (identifier 7 0)) in
    let (m'', removed) = remove_identifier m' 7 in
    IsValid m''
    × (added ≡ true)
    × (removed ≡ true)
    × (get_identifier m'' 0xF190 ≡ get_identifier data_manager 0xF190)
unfolding deinit get_identifier find_by
remove_identifier-add_identifier_example =
    remove_identifier-add_identifier data_manager (identifier 7 0) 0xF190 data_manager-IsValid refl
      refl (omega arith)

has_access-refused_example :
    ((has_access world scale data_manager start 0xF187 data_access_read ≡ true)
      ⊎ (read_data world scale data_manager start 0xF187 (some (9 ∷ [])) (some 1)
          ≡ (start, some (9 ∷ []), some 1, false)))
    × ((has_access world scale data_manager start 0xF187 data_access_write ≡ true)
        ⊎ (write_data world scale data_manager start [] 0xF187 (some (4 ∷ 5 ∷ []))
            ≡ (start, false)))
has_access-refused_example =
    has_access-refused world scale data_manager start [] 0xF187 (some 1) (some (9 ∷ []))
      (some (4 ∷ 5 ∷ []))

plain : IsPlain world start (identifier 0xF190 1) 1
unfolding Calls.deinit Calls.get_state
plain = record {
  readable = refl;
  writable = refl;
  secure = omega arith;
  unscaled = refl;
  direct = refl;
  unread = refl;
  unwritten = refl;
  fits = omega arith;
  inside = omega arith;
}

read_data-write_data_example :
    let (w', done) =
      write_data world scale data_manager start (7 ∷ 7 ∷ 7 ∷ []) 0xF190 (some (4 ∷ 5 ∷ [])) in
    (done ≡ true)
    × (read_data world scale data_manager w' 0xF190 (some (9 ∷ 9 ∷ 9 ∷ [])) (some 3)
        ≡ (w', some ((4 ∷ 5 ∷ []) ++ drop 2 (9 ∷ 9 ∷ 9 ∷ [])), some 2, true))
unfolding deinit get_identifier find_by
read_data-write_data_example =
    read_data-write_data world scale data_manager start (identifier 0xF190 1) 1 3 (7 ∷ 7 ∷ 7 ∷ [])
      (4 ∷ 5 ∷ []) (9 ∷ 9 ∷ 9 ∷ []) plain refl refl refl (omega arith)
