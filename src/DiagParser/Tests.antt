-- ===== src/DiagParser/Tests.antt =====
-- The theorems on the parser at concrete inputs.
use cant.Prelude.{
  ◌+◌, ◌%◌, get_or, length, ℕ, ◌≡◌, refl, Bool, true, false, some, List, [], ◌∷◌, arith, set, leb,
}
use cant.DiagParser.{
  Build, DiagMessage, parser_result_ok, calculate_checksum, checksum_loop, validate_message_format,
  parse_request,
}
use cant.DiagParser.Format.{formatted, format_request}
use cant.DiagParser.Checksum.{validate_message_format-corrupted}
use cant.DiagParser.RoundTrip.{received, parse_request-format_request}

abbrev strict : Build
strict = record { development = false; strict_checksum = true }

-- ReadDataById of 0xF190.
abbrev message : DiagMessage
message = record {
  id = 7;
  service_id = 0x22;
  sub_function = 0;
  bytes = 0xF1 ∷ 0x90 ∷ [];
  length = 2;
  timestamp = 0;
  session = 1;
  security = 0;
}

-- The message as bytes.
abbrev printed : List ℕ
printed = 1 ∷ 2 ∷ 0x22 ∷ 0xF1 ∷ 0x90 ∷ 90 ∷ []

printed-valid : validate_message_format strict printed 6 ≡ true
unfolding validate_message_format calculate_checksum checksum_loop
printed-valid = refl

validate_message_format-corrupted_example :
    validate_message_format strict (set printed 3 0xF2) 6 ≡ false
validate_message_format-corrupted_example =
    validate_message_format-corrupted strict printed 3 0xF2 refl (ground arith) (omega arith)
      (omega arith) (λ e. ground arith) printed-valid

abbrev allocates : ℕ → Bool
allocates n = leb n 100

parse_request-format_request_example :
    (xs : List ℕ) × (format_request (some message) true ≡ formatted xs)
    × (length xs ≡ 2 + 4)
    × (get_or xs 1 0 ≡ 2 % 256)
    × (parse_request strict allocates 55 (some xs) (some message)
        ≡ (parser_result_ok, some (received message 55)))
parse_request-format_request_example =
    parse_request-format_request strict allocates 55 message message refl refl (omega arith)
      (omega arith) refl
