-- ===== src/DiagParser.antt =====
-- The parser of src/runtime/diagnostic/diag_parser.c, with the types of diag_parser.h and
-- diag_core.h. A buffer is the list of its bytes, whose number is the length that the caller passes.
-- `now` is what `DiagTimer_GetTimestamp` gives, `allocates` whether `MEMORY_ALLOC` gives so many
-- bytes. Logging is left out. An access outside a buffer is a `parse_fault` or a `format_fault`.
pub mod Format
pub mod Checksum
pub mod RoundTrip
mod Tests
use cant.Prelude.{
  ℕ, suc, ◌+◌, ◌-◌, ◌%◌, Bool, true, false, not, ◌&&◌, ◌||◌, Option, none, some, List, [], ◌∷◌,
  ◌++◌, ltb, leb, ◌==◌, if◌then◌else◌, take, drop, get_or, length,
}
use cant.Prelude.Words.{u8, u8_mod, u32, u32_mod, sub32}

-- The switches of the build: `DEVELOPMENT_BUILD` and `STRICT_CHECKSUM`.
pub record Build : Type 0 where
  pub development : Bool
  pub strict_checksum : Bool

-- `DiagMessage`; `bytes` is what `data` points to, [] for NULL.
pub record DiagMessage : Type 0 where
  pub id : ℕ
  pub service_id : ℕ
  pub sub_function : ℕ
  pub bytes : List ℕ
  pub length : ℕ
  pub timestamp : ℕ
  pub session : ℕ
  pub security : ℕ

-- `DiagResponse`
pub record DiagResponse : Type 0 where
  pub id : ℕ
  pub service_id : ℕ
  pub response_code : ℕ
  pub bytes : List ℕ
  pub length : ℕ
  pub timestamp : ℕ
  pub success : Bool

-- `DiagParserResult`
pub data DiagParserResult : Type 0 where
  parser_result_ok : DiagParserResult
  parser_result_invalid_format : DiagParserResult
  parser_result_invalid_length : DiagParserResult
  parser_result_invalid_service : DiagParserResult
  parser_result_invalid_subfunc : DiagParserResult
  parser_result_error : DiagParserResult

abbrev pub format_version : ℕ
format_version = 0x01

abbrev pub min_message_length : ℕ
min_message_length = 4

abbrev pub max_message_length : ℕ
max_message_length = 4095

abbrev pub header_size : ℕ
header_size = 3

abbrev pub checksum_size : ℕ
checksum_size = 1

abbrev pub msg_type_custom_start : ℕ
msg_type_custom_start = 0xF0

abbrev pub msg_type_debug : ℕ
msg_type_debug = 0xFD

abbrev pub sid_diagnostic_control : ℕ
sid_diagnostic_control = 0x10

abbrev pub sid_ecu_reset : ℕ
sid_ecu_reset = 0x11

abbrev pub sid_security_access : ℕ
sid_security_access = 0x27

abbrev pub sid_read_data_by_id : ℕ
sid_read_data_by_id = 0x22

abbrev pub sid_write_data_by_id : ℕ
sid_write_data_by_id = 0x2E

abbrev pub response_positive : ℕ
response_positive = 0x40

-- `service_table`: the ids with their shortest messages.
abbrev pub service_table : List (ℕ × ℕ)
service_table =
    (sid_diagnostic_control, 2)
    ∷ (sid_ecu_reset, 2)
    ∷ (sid_security_access, 2)
    ∷ (sid_read_data_by_id, 3)
    ∷ (sid_write_data_by_id, 4)
    ∷ (msg_type_debug, 2)
    ∷ []

-- The shortest message of a service, from the first entry with its id.
unfoldable pub find_service : List (ℕ × ℕ) → ℕ → Option ℕ
find_service [] id = none
find_service ((sid, shortest) ∷ table) id =
    let rest = find_service table id in if sid == id then some shortest else rest

-- The loop of `calculate_checksum`.
unfoldable pub checksum_loop : ℕ → List ℕ → ℕ
checksum_loop sum [] = sum
checksum_loop sum (x ∷ xs) = checksum_loop (u8 (sum + x)) xs

-- `calculate_checksum`: `~sum + 1` in eight bits.
unfoldable pub calculate_checksum : List ℕ → ℕ
calculate_checksum bytes = u8 (u8_mod - 1 - checksum_loop 0 bytes + 1)

-- `validate_message_format` of the first `n` bytes.
unfoldable pub validate_message_format : Build → List ℕ → ℕ → Bool
validate_message_format build bytes n =
    if not (get_or bytes 0 0 == format_version)
    then false
    else if not (get_or bytes (n - 1) 0 == calculate_checksum (take (n - 1) bytes))
        && build.strict_checksum
    then false
    else true

abbrev no_message : DiagMessage
no_message = record {
  id = 0;
  service_id = 0;
  sub_function = 0;
  bytes = [];
  length = 0;
  timestamp = 0;
  session = 0;
  security = 0;
}

-- `parse_service_parameters`
unfoldable pub parse_service_parameters : Build → ℕ → List ℕ → DiagMessage → DiagMessage × Bool
parse_service_parameters build service_id bytes message =
    if service_id == sid_diagnostic_control
      || (service_id == sid_ecu_reset || service_id == sid_security_access)
    then if ltb (length bytes) (header_size + 1)
      then (message, false)
      else (record message { sub_function = get_or bytes header_size 0 }, true)
    else if service_id == sid_read_data_by_id || service_id == sid_write_data_by_id
    then if ltb (length bytes) (header_size + 2)
      then (message, false)
      else (record message { sub_function = 0 }, true)
    else if service_id == msg_type_debug
    then if build.development then (record message { sub_function = 0 }, true) else (message, false)
    else if leb msg_type_custom_start service_id
    then (record message { sub_function = 0 }, true)
    else (message, false)

module _ (build : Build) (allocates : ℕ → Bool) (now : ℕ) where
  -- The copy of the data at the end of `DiagParser_ParseRequest`.
  unfoldable pub copy_request : List ℕ → ℕ → DiagMessage × Bool → DiagParserResult × DiagMessage
  copy_request bytes service_id (message, parsed) =
      let data_length = length bytes - header_size - checksum_size in
      if not parsed
      then (parser_result_invalid_subfunc, message)
      else if not (allocates data_length)
      then (parser_result_error, message)
      else (
        parser_result_ok,
        record message {
          bytes = take data_length (drop header_size bytes);
          length = data_length;
          service_id = service_id;
          timestamp = now;
        },
      )

  -- The service after the search of the table.
  unfoldable pub parse_service : List ℕ → ℕ → Option ℕ → DiagParserResult × DiagMessage
  parse_service bytes service_id (some shortest) =
      if ltb (length bytes) shortest
      then (parser_result_invalid_length, no_message)
      else copy_request bytes service_id
          (parse_service_parameters build service_id bytes no_message)
  parse_service bytes service_id none =
      if build.development && leb msg_type_custom_start service_id
      then copy_request bytes service_id
          (parse_service_parameters build service_id bytes no_message)
      else (parser_result_invalid_service, no_message)

  -- `DiagParser_ParseRequest`, with the message that the caller has.
  unfoldable pub parse_request :
      Option (List ℕ) → Option DiagMessage → DiagParserResult × Option DiagMessage
  parse_request none message = (parser_result_invalid_length, message)
  parse_request (some bytes) none = (parser_result_invalid_length, none)
  parse_request (some bytes) (some message) =
      let (result, parsed) =
        parse_service bytes (get_or bytes 2 0) (find_service service_table (get_or bytes 2 0)) in
      if ltb (length bytes) min_message_length
      then (parser_result_invalid_length, some message)
      else if not (validate_message_format build bytes (length bytes))
      then (parser_result_invalid_format, some no_message)
      else (result, some parsed)
