-- ===== src/DiagParser/RoundTrip.antt =====
-- A request that has been printed is parsed back.
use cant.Prelude.{
  ◌%◌, length-take, ℕ, suc, ◌+◌, ◌-◌, ◌<◌, ◌≤◌, ◌≡◌, refl, Bool, true, false, ◌||◌, some, List, [],
  ◌∷◌, ◌++◌, ltb, ◌==◌, ==_iff, if◌then◌else◌, take, get_or, length, arith, ap, sym, ◌∙◌, take_all,
  length-append, take-append_le, Bool-cases, inl, inr,
}
use cant.Prelude.Words.{u8, u32}
use cant.DiagParser.{
  Build, DiagMessage, parser_result_ok, no_message, sid_diagnostic_control, sid_ecu_reset,
  sid_security_access, sid_read_data_by_id, sid_write_data_by_id, find_service, service_table,
  calculate_checksum, validate_message_format, parse_service_parameters, copy_request,
  parse_service, parse_request,
}
use cant.DiagParser.Format.{formatted, formatted_front, format_request}

-- The services with a sub-function, and those with a data identifier.
abbrev pub has_sub_function : ℕ → Bool
has_sub_function id =
    id == sid_diagnostic_control || (id == sid_ecu_reset || id == sid_security_access)

abbrev pub has_identifier : ℕ → Bool
has_identifier id = id == sid_read_data_by_id || id == sid_write_data_by_id

-- What is to be parsed back: the service, the data and its length. The sub-function is the first
-- byte of the data where the service has one; the id, the session and the security level are 0.
abbrev pub received : DiagMessage → ℕ → DiagMessage
received message now = record no_message {
  service_id = message.service_id;
  sub_function = if has_sub_function message.service_id then get_or message.bytes 0 0 else 0;
  bytes = message.bytes;
  length = message.length;
  timestamp = now;
}

get_or-last : (xs : List ℕ) (c : ℕ) → get_or (xs ++ c ∷ []) (length xs) 0 ≡ c
get_or-last [] c = refl
get_or-last (x ∷ xs) c = get_or-last xs c

take-front : (xs : List ℕ) (c : ℕ) → take (length xs) (xs ++ c ∷ []) ≡ xs
take-front xs c =
    take-append_le (length xs) xs (c ∷ []) (omega arith) ∙ take_all (length xs) xs (omega arith)

validate_formatted :
    (build : Build) (rest : List ℕ)
    → let front = 1 ∷ rest in
      validate_message_format build (front ++ calculate_checksum front ∷ []) (suc (length front))
      ≡ true
unfolding validate_message_format
validate_formatted build rest =
    let front = 1 ∷ rest in
    let c = calculate_checksum front in
    let n : suc (length front) - 1 ≡ length front = omega arith in
    rw (n, get_or-last rest c, take-front rest c, (==_iff c c).1 refl) refl

abbrev pub known : ℕ → Bool
known id = has_sub_function id || has_identifier id

find_service-known :
    (id : ℕ)
    → known id ≡ true
    → (shortest : ℕ) × (find_service service_table id ≡ some shortest) × (shortest ≤ 4)
unfolding find_service
find_service-known id h = elim (Bool-cases (has_sub_function id)) [
  | inl sub ↦ (2, ground arith, omega arith)
  | inr plain ↦ elim (Bool-cases (id == sid_read_data_by_id)) [
    | inl read ↦ (3, ground arith, omega arith)
    | inr write ↦ (4, ground arith, omega arith)
  ]
]

parse_service_parameters-known :
    (build : Build) (id : ℕ) (bytes : List ℕ)
    → known id ≡ true
    → 5 ≤ length bytes
    → parse_service_parameters build id bytes no_message ≡ (
      record no_message { sub_function = if has_sub_function id then get_or bytes 3 0 else 0 },
      true,
    )
unfolding parse_service_parameters
parse_service_parameters-known build id bytes h k = ground arith

module _ (build : Build) (allocates : ℕ → Bool) (now : ℕ) where
  parse_service_formatted :
      (id n : ℕ) (x : ℕ) (xs : List ℕ) (c : ℕ)
      → known id ≡ true
      → allocates (suc (length xs)) ≡ true
      → parse_service build allocates now
          (1 ∷ n ∷ id ∷ (x ∷ xs) ++ c ∷ [])
          id
          (find_service service_table id)
        ≡ (
          parser_result_ok,
          record no_message {
            service_id = id;
            sub_function = if has_sub_function id then x else 0;
            bytes = x ∷ xs;
            length = suc (length xs);
            timestamp = now;
          },
        )
  unfolding parse_service copy_request
  parse_service_formatted id n x xs c h room =
      let whole = 1 ∷ n ∷ id ∷ (x ∷ xs) ++ c ∷ [] in
      let size : length whole ≡ 5 + length xs = omega (arith, length-append xs (c ∷ [])) in
      let (shortest, found, le) = find_service-known id h in
      let long : ltb (length whole) shortest ≡ false = ground arith in
      let rest : length whole - 3 - 1 ≡ suc (length xs) = omega arith in
      rw
        (
          found,
          long,
          parse_service_parameters-known build id whole h (omega arith),
          rest,
          room,
          take-front xs c,
        )
        refl

  -- A parsed buffer with the right format gives what its service gives.
  parse_request_formatted :
      (xs : List ℕ) (old : DiagMessage) (id : ℕ)
      → 4 ≤ length xs
      → validate_message_format build xs (length xs) ≡ true
      → get_or xs 2 0 ≡ id
      → let (result, message) =
          parse_service build allocates now xs id (find_service service_table id) in
        parse_request build allocates now (some xs) (some old) ≡ (result, some message)
  unfolding parse_request
  parse_request_formatted xs old id h valid e =
      let long : ltb (length xs) 4 ≡ false = ground arith in rw (long, valid, e) refl

  parse_request_body :
      (n id : ℕ) (body : List ℕ) (old : DiagMessage)
      → known id ≡ true
      → 0 < length body
      → allocates (length body) ≡ true
      → let front = 1 ∷ n ∷ id ∷ body in
        parse_request build allocates now (some (front ++ calculate_checksum front ∷ [])) (some old)
        ≡ (
          parser_result_ok,
          some (record no_message {
            service_id = id;
            sub_function = if has_sub_function id then get_or body 0 0 else 0;
            bytes = body;
            length = length body;
            timestamp = now;
          }),
        )
  parse_request_body n id [] old h pos room = absurd (omega arith)
  parse_request_body n id (x ∷ body) old h pos room =
      let front = 1 ∷ n ∷ id ∷ x ∷ body in
      let c = calculate_checksum front in
      let whole = front ++ c ∷ [] in
      let size : length whole ≡ suc (length front) = omega (arith, length-append body (c ∷ [])) in
      let valid : validate_message_format build whole (length whole) ≡ true =
        ap (validate_message_format build whole) size
        ∙ validate_formatted build (n ∷ id ∷ x ∷ body) in
      parse_request_formatted whole old id (omega arith) valid refl
      ∙ ap (λ r. (r.0, some (r.1))) (parse_service_formatted id n x body c h room)

  format_request_fits :
      (m : DiagMessage)
      → length m.bytes ≡ m.length
      → m.length ≤ 4091
      → format_request (some m) true
        ≡ formatted (formatted_front m ++ calculate_checksum (formatted_front m) ∷ [])
  unfolding format_request
  format_request_fits m e h =
      let short : ltb 4095 (u32 (3 + m.length + 1)) ≡ false = ground arith in
      let inside : ltb 4095 m.length ≡ false = ground arith in
      let whole : ltb (length m.bytes) m.length ≡ false = ground arith in
      rw (short, inside, whole) refl

  -- A request of one of the five services with one byte of data up to 4091 is printed by
  -- `DiagParser_FormatRequest` in four bytes more than its data has: the second one is the number of
  -- data bytes, modulo 256, and none is the sub-function. `DiagParser_ParseRequest`, given memory,
  -- accepts it in every build and gives the service, the data and its length as they were. The rest
  -- does not come back: the sub-function is the first byte of the data where the service has one
  -- and else 0, the id, the session and the security level are 0, and the time is that of parsing.
  pub parse_request-format_request :
      (m old : DiagMessage)
      → known m.service_id ≡ true
      → length m.bytes ≡ m.length
      → 0 < m.length
      → m.length ≤ 4091
      → allocates m.length ≡ true
      → (xs : List ℕ) × (format_request (some m) true ≡ formatted xs)
        × (length xs ≡ m.length + 4)
        × (get_or xs 1 0 ≡ m.length % 256)
        × (parse_request build allocates now (some xs) (some old)
            ≡ (parser_result_ok, some (received m now)))
  parse_request-format_request m old h e pos le room =
      let rest = u8 m.length ∷ m.service_id ∷ take m.length m.bytes in
      let c = calculate_checksum (1 ∷ rest) in
      let body : take m.length m.bytes ≡ m.bytes = take_all m.length m.bytes (omega arith) in
      (
        (1 ∷ rest) ++ c ∷ [],
        format_request_fits m e le,
        omega (arith, length-append rest (c ∷ []), length-take m.length m.bytes),
        refl,
        rw (body, sym e)
            (parse_request_body (u8 (length m.bytes)) m.service_id m.bytes old h (omega arith)
              (rw e room)),
      )
