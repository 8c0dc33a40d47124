-- ===== src/DiagParser/Checksum.antt =====
-- The checksum of diag_parser.c as a sum that is to be zero.
use cant.Prelude.{
  ℕ, zero, suc, ◌+◌, ◌-◌, ◌%◌, ◌<◌, ◌≡◌, ◌≢◌, refl, true, false, ◌&&◌, List, [], ◌∷◌, ◌++◌, ◌==◌,
  take, set, get_or, length, arith, ap, sym, ◌∙◌, All, All-set, length-set,
}
use cant.DiagParser.{Build, checksum_loop, calculate_checksum, validate_message_format}

-- The sum of the bytes.
abbrev pub total : List ℕ → ℕ
total [] = 0
total (x ∷ xs) = x + total xs

checksum_loop-total :
    (sum : ℕ) (xs : List ℕ) → sum < 256 → checksum_loop sum xs ≡ (sum + total xs) % 256
unfolding checksum_loop
checksum_loop-total sum [] h = omega arith
checksum_loop-total sum (x ∷ xs) h =
    checksum_loop-total ((sum + x) % 256) xs (omega arith) ∙ omega arith

pub calculate_checksum-total : (xs : List ℕ) → calculate_checksum xs ≡ (256 - total xs % 256) % 256
unfolding calculate_checksum
calculate_checksum-total xs = omega (arith, checksum_loop-total 0 xs (omega arith))

pub total-append : (xs ys : List ℕ) → total (xs ++ ys) ≡ total xs + total ys
total-append [] ys = omega arith
total-append (x ∷ xs) ys = omega (arith, total-append xs ys)

-- A byte is the checksum of those before it exactly if they add up to zero in eight bits.
pub checksum_iff :
    (front : List ℕ) (c : ℕ)
    → c < 256
    → (c == calculate_checksum front) ≡ (total (front ++ c ∷ []) % 256 == 0)
checksum_iff front c h = ground (arith, calculate_checksum-total front, total-append front (c ∷ []))

-- A list is its front and its last element.
front_last : (xs : List ℕ) (m : ℕ) → length xs ≡ suc m → take m xs ++ get_or xs m 0 ∷ [] ≡ xs
front_last [] m h = absurd (omega arith)
front_last (x ∷ []) zero h = refl
front_last (x ∷ y ∷ xs) zero h = absurd (omega arith)
front_last (x ∷ xs) (suc m) h = ap (λ t. x ∷ t) (front_last xs m (omega arith))

-- The bytes of a buffer.
abbrev pub Bytes : List ℕ → Type 0
Bytes xs = All (λ x. x < 256) xs

get_or-byte : (xs : List ℕ) (i : ℕ) → Bytes xs → get_or xs i 0 < 256
get_or-byte [] i h = omega arith
get_or-byte (x ∷ xs) zero h = h.0
get_or-byte (x ∷ xs) (suc i) h = get_or-byte xs i h.1

set-Bytes : (xs : List ℕ) (i v : ℕ) → Bytes xs → v < 256 → Bytes (set xs i v)
set-Bytes xs i v h k = All-set (λ x. x < 256) xs i v h k

-- A message has the right format for a strict build exactly if it starts with the version and its
-- bytes add up to zero.
pub validate_message_format_lem :
    (build : Build) (xs : List ℕ)
    → build.strict_checksum ≡ true
    → Bytes xs
    → 0 < length xs
    → validate_message_format build xs (length xs) ≡ ((get_or xs 0 0 == 1) && (total xs % 256 == 0))
unfolding validate_message_format
validate_message_format_lem build xs strict h k =
    let n = length xs - 1 in
    let whole : take n xs ++ get_or xs n 0 ∷ [] ≡ xs = front_last xs n (omega arith) in
    let fits : (get_or xs n 0 == calculate_checksum (take n xs)) ≡ (total xs % 256 == 0) =
      checksum_iff (take n xs) (get_or xs n 0) (get_or-byte xs n h)
      ∙ ap (λ t. total t % 256 == 0) whole in
    rw (strict, fits) (ground arith)

total-set :
    (xs : List ℕ) (i v : ℕ) → i < length xs → total (set xs i v) + get_or xs i 0 ≡ total xs + v
total-set [] i v h = absurd (omega arith)
total-set (x ∷ xs) zero v h = omega arith
total-set (x ∷ xs) (suc i) v h = omega (arith, total-set xs i v (omega arith))

-- In a build with the strict checksum, a buffer of bytes that has the right format no longer has it
-- after any one byte has been replaced by another.
pub validate_message_format-corrupted :
    (build : Build) (xs : List ℕ) (i v : ℕ)
    → build.strict_checksum ≡ true
    → Bytes xs
    → i < length xs
    → v < 256
    → get_or xs i 0 ≢ v
    → validate_message_format build xs (length xs) ≡ true
    → validate_message_format build (set xs i v) (length xs) ≡ false
validate_message_format-corrupted build xs i v strict h k byte other valid =
    let new = set xs i v in
    let before = validate_message_format_lem build xs strict h (omega arith) in
    let after =
      validate_message_format_lem build new strict (set-Bytes xs i v h byte)
        (omega (arith, length-set xs i v)) in
    let e : ((get_or xs 0 0 == 1) && (total xs % 256 == 0)) ≡ true = sym before ∙ valid in
    let zero_sum : total xs % 256 ≡ 0 = ground arith in
    let nonzero : (total new % 256 == 0) ≡ false =
      ground (arith, total-set xs i v k, get_or-byte xs i h) in
    ap (validate_message_format build new) (sym (length-set xs i v))
    ∙ after
    ∙ rw nonzero (ground arith)
