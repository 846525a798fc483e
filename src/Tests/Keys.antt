-- ===== src/Tests/Keys.antt =====
-- The theorems on storage keys at concrete inputs.
use prima_db.Prelude.{◌%◌, ◌≡◌, ◌≢◌, ◌↔◌, refl, true, some, [], ◌∷◌, length, lt, arith}
use prima_db.Text.{Text, bytes}
use prima_db.Text.Utf8.{completes, completion, is_utf8}
use prima_db.Ord.{cmp_list, list_ord, nat_ord}
use prima_db.Clock.{hex_digit}
use prima_db.Storage.Components.{
  decoded, failed, panicked, odd_length, decode_pairs, encode_component, decode_component,
  decode_component-encode_component, decode_component_ascii,
}
use prima_db.Storage.Sortable.{
  JsonKind, hex_fixed, sortable_bits, sortable_scalar_key, cmp_scalar, total_cmp,
  sortable_scalar_key-cmp,
}
use prima_db.Storage.Keys.{
  direct_index_key, direct_index_key_parts, direct_index_key_parts-direct_index_key,
}

-- An `a` and an `é`.
abbrev accented : Text
accented = 0x61 ∷ 0xc3 ∷ 0xa9 ∷ []

accented-is_utf8 : is_utf8 accented ≡ true
unfolding is_utf8 completes completion
accented-is_utf8 = refl

encoded_accented : encode_component accented ≡ bytes "61c3a9"
unfolding encode_component hex_digit
encoded_accented = refl

decode_component-encode_component_example :
    decode_component (encode_component accented) ≡ decoded accented
decode_component-encode_component_example =
    decode_component-encode_component accented accented-is_utf8

decode_component_ascii_example :
    (decode_component (bytes "61z") ≢ panicked)
    × ((decode_component (bytes "61z") ≡ failed odd_length) ↔ (length (bytes "61z") % 2 ≡ 1))
decode_component_ascii_example = decode_component_ascii (bytes "61z") (ground arith)

-- An even number of bytes, of which the second begins a character of two.
cut_character : decode_component (0x61 ∷ 0xc3 ∷ 0xa9 ∷ 0x62 ∷ []) ≡ panicked
unfolding decode_component decode_pairs
cut_character = refl

-- -2.0 and 1.0.
abbrev minus_two : JsonKind
minus_two = JsonKind.number (some 0xc000000000000000)

abbrev one : JsonKind
one = JsonKind.number (some 0x3ff0000000000000)

key_of_minus_two : sortable_scalar_key minus_two ≡ some (bytes "n_3fffffffffffffff")
unfolding sortable_scalar_key hex_fixed sortable_bits hex_digit
key_of_minus_two = refl

key_of_one : sortable_scalar_key one ≡ some (bytes "n_bff0000000000000")
unfolding sortable_scalar_key hex_fixed sortable_bits hex_digit
key_of_one = refl

sortable_scalar_key-cmp_example :
    cmp_list (bytes "n_3fffffffffffffff") (bytes "n_bff0000000000000") ≡ cmp_scalar minus_two one
sortable_scalar_key-cmp_example =
    sortable_scalar_key-cmp minus_two one (omega arith) (omega arith) key_of_minus_two key_of_one

below : cmp_scalar minus_two one ≡ lt
unfolding cmp_scalar total_cmp
below = refl

title_is_utf8 : is_utf8 (bytes "title") ≡ true
unfolding is_utf8 completes completion
title_is_utf8 = refl

direct_index_key_parts-direct_index_key_example :
    (direct_index_key_parts (direct_index_key (bytes "title") (bytes "n_bff0000000000000") accented)
      ≡ some
          (encode_component (bytes "title"), bytes "n_bff0000000000000", encode_component accented))
    × (decode_component (encode_component (bytes "title")) ≡ decoded (bytes "title"))
    × (decode_component (encode_component accented) ≡ decoded accented)
direct_index_key_parts-direct_index_key_example =
    direct_index_key_parts-direct_index_key (bytes "title") accented one title_is_utf8
      accented-is_utf8 (omega arith) key_of_one
