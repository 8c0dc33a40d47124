-- ===== src/DiagParser/Format.antt =====
-- The responses and the printer of diag_parser.c.
use cant.Prelude.{
  ℕ, zero, suc, ◌+◌, Bool, true, false, not, ◌||◌, Option, none, some, List, [], ◌∷◌, ◌++◌, ltb,
  ◌==◌, if◌then◌else◌, take, drop, get_or, length,
}
use cant.Prelude.Words.{u8, u32, sub32}
use cant.DiagParser.{
  Build, DiagMessage, DiagResponse, DiagParserResult, parser_result_ok,
  parser_result_invalid_format, parser_result_invalid_length, parser_result_error, format_version,
  min_message_length, max_message_length, header_size, checksum_size, response_positive,
  validate_message_format, calculate_checksum,
}

-- The loop that strips the padding of the first `n` bytes: the length that is left.
unfoldable pub strip : List ℕ → ℕ → ℕ
strip bytes zero = zero
strip bytes (suc n) = let rest = strip bytes n in if get_or bytes n 0 == 0xFF then rest else suc n

-- What `DiagParser_ParseResponse` leaves: a response, or an access outside the buffer.
pub data ResponseResult : Type 0 where
  parsed_response : DiagParserResult → Option DiagResponse → ResponseResult
  parse_fault : ResponseResult

abbrev pub no_response : DiagResponse
no_response = record {
  id = 0;
  service_id = 0;
  response_code = 0;
  bytes = [];
  length = 0;
  timestamp = 0;
  success = false;
}

module _ (build : Build) (allocates : ℕ → Bool) (now : ℕ) where
  -- The copy of the data at the end of `DiagParser_ParseResponse`, of `n` bytes of the buffer.
  unfoldable pub copy_response : List ℕ → ℕ → DiagResponse → ResponseResult
  copy_response bytes n response =
      let data_length = sub32 n (header_size + 2) in
      if data_length == 0
      then parsed_response parser_result_ok (some (record response { timestamp = now }))
      else if not (allocates data_length)
      then parsed_response parser_result_error (some response)
      else if ltb (length bytes) (header_size + 1 + data_length)
      then parse_fault
      else parsed_response parser_result_ok (
          some (record response {
            bytes = take data_length (drop (header_size + 1) bytes);
            length = data_length;
            timestamp = now;
          }))

  -- The part of `DiagParser_ParseResponse` after the padding.
  unfoldable pub parse_stripped : List ℕ → ℕ → ResponseResult
  parse_stripped bytes n =
      let code = get_or bytes 3 0 in
      if n == 0
      then if get_or bytes 0 0 == format_version
        then parse_fault
        else parsed_response parser_result_invalid_format (some no_response)
      else if not (validate_message_format build bytes n)
      then parsed_response parser_result_invalid_format (some no_response)
      else copy_response bytes n (record no_response {
        service_id = get_or bytes 2 0;
        response_code = code;
        success = code == response_positive;
      })

  -- `DiagParser_ParseResponse`, with the response that the caller has.
  unfoldable pub parse_response : Option (List ℕ) → Option DiagResponse → ResponseResult
  parse_response none response = parsed_response parser_result_invalid_length response
  parse_response (some bytes) none = parsed_response parser_result_invalid_length none
  parse_response (some bytes) (some response) =
      if ltb (length bytes) min_message_length
      then parsed_response parser_result_invalid_length (some response)
      else parse_stripped bytes (strip bytes (length bytes))

-- What `DiagParser_FormatRequest` does to a buffer that takes the longest message: nothing, an
-- access outside a buffer, or the bytes that it writes there, whose number it also gives.
pub data FormatResult : Type 0 where
  format_refused : FormatResult
  format_fault : FormatResult
  formatted : List ℕ → FormatResult

-- The bytes before the checksum.
abbrev pub formatted_front : DiagMessage → List ℕ
formatted_front message =
    format_version ∷ u8 message.length ∷ message.service_id ∷ take message.length message.bytes

-- `DiagParser_FormatRequest`
unfoldable pub format_request : Option DiagMessage → Bool → FormatResult
format_request none buffer = format_refused
format_request (some message) false = format_refused
format_request (some message) true =
    let front = formatted_front message in
    if ltb max_message_length (u32 (header_size + message.length + checksum_size))
    then format_refused
    else if ltb max_message_length message.length || ltb (length message.bytes) message.length
    then format_fault
    else formatted (front ++ calculate_checksum front ∷ [])
