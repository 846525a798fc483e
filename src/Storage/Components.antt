-- ===== src/Storage/Components.antt =====
-- The codec of key components in engine.rs: `encode_component` and `decode_component`.
use prima_db.Prelude.{
  ℕ, ◌+◌, ◌-◌, ◌*◌, ◌/◌, ◌%◌, ◌<◌, ◌≡◌, ◌≢◌, ◌↔◌, refl, ap, true, false, Bool-cases, inl, inr, ◌&&◌,
  ◌||◌, Option, none, some, [], ◌∷◌, All, length, leb, ◌==◌, if◌then◌else◌, arith,
}
use prima_db.Text.{Text, is_continuation}
use prima_db.Text.Chars.{begins_inside}
use prima_db.Text.Utf8.{IsByte, is_utf8, is_utf8-bytes}
use prima_db.Clock.{hex_digit}

pub data DecodeError : Type 0 where
  odd_length invalid_digit invalid_utf8 : DecodeError

-- What a call that may panic comes back with.
pub data Decoded : Type 0 where
  decoded : Text → Decoded
  failed : DecodeError → Decoded
  panicked : Decoded

unfoldable pub encode_component : Text → Text
unfolding hex_digit
encode_component [] = []
encode_component (byte ∷ input) =
    hex_digit (byte / 16) ∷ hex_digit (byte % 16) ∷ encode_component input

-- `char::to_digit(16)`
unfoldable pub to_digit : ℕ → Option ℕ
to_digit c =
    if leb b'0' c && leb c b'9'
    then some (c - b'0')
    else if leb b'a' c && leb c b'f'
    then some (c - b'a' + 10)
    else if leb b'A' c && leb c b'F'
    then some (c - b'A' + 10)
    else none

-- `u8::from_str_radix` at two characters, which takes a sign before one digit.
unfoldable pub pair_value : ℕ → ℕ → Option ℕ
pair_value high low = if high == b'+' then to_digit low else elim (to_digit high) [
  | none ↦ none
  | some h ↦ elim (to_digit low) [ none ↦ none | some l ↦ some (16 * h + l) ]
]

-- A further byte, where its digits are in order.
abbrev with_byte : Option ℕ → Decoded → Decoded
with_byte none rest = failed invalid_digit
with_byte (some byte) (decoded rest) = decoded (byte ∷ rest)
with_byte (some byte) (failed e) = failed e
with_byte (some byte) panicked = panicked

-- The loop over the pairs. A slice that begins or ends inside a character panics, and so does one
-- that ends behind the input.
unfoldable pub decode_pairs : Text → Decoded
unfolding pair_value is_continuation
decode_pairs [] = decoded []
decode_pairs (c ∷ []) = panicked
decode_pairs (high ∷ low ∷ input) =
    let rest = decode_pairs input in
    if is_continuation high || begins_inside input
    then panicked
    else with_byte (pair_value high low) rest

abbrev checked_utf8 : Decoded → Decoded
checked_utf8 (decoded text) = if is_utf8 text then decoded text else failed invalid_utf8
checked_utf8 (failed e) = failed e
checked_utf8 panicked = panicked

unfoldable pub decode_component : Text → Decoded
unfolding decode_pairs is_utf8
decode_component input =
    if length input % 2 == 0 then checked_utf8 (decode_pairs input) else failed odd_length

hex_digit-to_digit :
    (d : ℕ)
    → d < 16
    → (to_digit (hex_digit d) ≡ some d)
      × (is_continuation (hex_digit d) ≡ false)
      × ((hex_digit d == b'+') ≡ false)
unfolding to_digit hex_digit is_continuation
hex_digit-to_digit d h = ground arith

-- What a pair of digits of a byte below 256 is read as.
pair_of_byte :
    (byte : ℕ)
    → byte < 256
    → (pair_value (hex_digit (byte / 16)) (hex_digit (byte % 16)) ≡ some byte)
      × (is_continuation (hex_digit (byte / 16)) ≡ false)
      × (is_continuation (hex_digit (byte % 16)) ≡ false)
unfolding pair_value
pair_of_byte byte h =
    let (high, high_begins, no_sign) = hex_digit-to_digit (byte / 16) (omega arith) in
    let (low, low_begins, _) = hex_digit-to_digit (byte % 16) (omega arith) in
    (rw (no_sign, high, low) (ap some (omega arith)), high_begins, low_begins)

encoding_begins : (text : Text) → All IsByte text → begins_inside (encode_component text) ≡ false
unfolding encode_component
encoding_begins [] a = refl
encoding_begins (byte ∷ text) a = (pair_of_byte byte a.0).1

decode_pairs-encode_component :
    (text : Text) → All IsByte text → decode_pairs (encode_component text) ≡ decoded text
unfolding decode_pairs encode_component
decode_pairs-encode_component [] a = refl
decode_pairs-encode_component (byte ∷ text) a =
    let (pair, high, _) = pair_of_byte byte a.0 in
    rw (high, encoding_begins text a.1, pair, decode_pairs-encode_component text a.1) refl

length-encode_component : (text : Text) → length (encode_component text) ≡ 2 * length text
unfolding encode_component
length-encode_component [] = omega arith
length-encode_component (byte ∷ text) = omega (arith, length-encode_component text)

-- What `encode_component` writes is read back, whatever text it is.
pub decode_component-encode_component :
    (text : Text) → is_utf8 text ≡ true → decode_component (encode_component text) ≡ decoded text
unfolding decode_component
decode_component-encode_component text valid =
    let even : (length (encode_component text) % 2 == 0) ≡ true =
      ground (arith, length-encode_component text) in
    rw (even, decode_pairs-encode_component text (is_utf8-bytes text valid), valid) refl

abbrev pub IsAscii : ℕ → Type 0
IsAscii c = c < 128

begins_ascii : (c : ℕ) → IsAscii c → is_continuation c ≡ false
unfolding is_continuation
begins_ascii c h = ground arith

begins_ascii_text : (text : Text) → All IsAscii text → begins_inside text ≡ false
begins_ascii_text [] a = refl
begins_ascii_text (c ∷ text) a = begins_ascii c a.0

with_byte-ne-panicked :
    (byte : Option ℕ) (rest : Decoded) → rest ≢ panicked → with_byte byte rest ≢ panicked
with_byte-ne-panicked none rest h = cc
with_byte-ne-panicked (some byte) (decoded rest) h = cc
with_byte-ne-panicked (some byte) (failed e) h = cc
with_byte-ne-panicked (some byte) panicked h = h

decode_pairs_ascii :
    (input : Text) → All IsAscii input → length input % 2 ≡ 0 → decode_pairs input ≢ panicked
unfolding decode_pairs
decode_pairs_ascii [] a h = cc
decode_pairs_ascii (c ∷ []) a h = absurd (omega arith)
decode_pairs_ascii (high ∷ low ∷ input) a h =
    rw (begins_ascii high a.0, begins_ascii_text input a.1.1)
      (with_byte-ne-panicked (pair_value high low) (decode_pairs input)
        (decode_pairs_ascii input a.1.1 (omega arith)))

checked_utf8-ne-panicked : (d : Decoded) → d ≢ panicked → checked_utf8 d ≢ panicked
checked_utf8-ne-panicked (decoded text) h = ground arith
checked_utf8-ne-panicked (failed e) h = cc
checked_utf8-ne-panicked panicked h = h

with_byte-ne-odd_length :
    (byte : Option ℕ) (rest : Decoded)
    → rest ≢ failed odd_length
    → with_byte byte rest ≢ failed odd_length
with_byte-ne-odd_length none rest h = cc
with_byte-ne-odd_length (some byte) (decoded rest) h = cc
with_byte-ne-odd_length (some byte) (failed e) h = h
with_byte-ne-odd_length (some byte) panicked h = cc

decode_pairs-ne-odd_length : (input : Text) → decode_pairs input ≢ failed odd_length
unfolding decode_pairs
decode_pairs-ne-odd_length [] = cc
decode_pairs-ne-odd_length (c ∷ []) = cc
decode_pairs-ne-odd_length (high ∷ low ∷ input) =
    elim (Bool-cases (is_continuation high || begins_inside input)) [
      | inl inside ↦ rw inside (λ e. cc)
      | inr outside ↦ rw outside (
          with_byte-ne-odd_length (pair_value high low) (decode_pairs input)
            (decode_pairs-ne-odd_length input))
    ]

checked_utf8-ne-odd_length :
    (d : Decoded) → d ≢ failed odd_length → checked_utf8 d ≢ failed odd_length
checked_utf8-ne-odd_length (decoded text) h = ground arith
checked_utf8-ne-odd_length (failed e) h = h
checked_utf8-ne-odd_length panicked h = cc

-- On ASCII text `decode_component` does not panic, and it refuses a text for its length just where
-- the number of characters is odd.
pub decode_component_ascii :
    (input : Text)
    → All IsAscii input
    → (decode_component input ≢ panicked)
      × ((decode_component input ≡ failed odd_length) ↔ (length input % 2 ≡ 1))
unfolding decode_component
decode_component_ascii input a = elim (Bool-cases (length input % 2 == 0)) [
  | inl even ↦
      let pairs = decode_pairs input in
      rw even (
        checked_utf8-ne-panicked pairs (decode_pairs_ascii input a (ground arith)),
        (
          λ e. absurd (checked_utf8-ne-odd_length pairs (decode_pairs-ne-odd_length input) e),
          λ odd. absurd (ground arith),
        ),
      )
  | inr odd ↦ rw odd (λ e. cc, (λ e. ground arith, λ o. refl))
]
