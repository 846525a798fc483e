-- ===== src/Storage/Keys.antt =====
-- The keys of the direct index in engine.rs.
use prima_db.Prelude.{
  ℕ, zero, suc, ◌/◌, ◌%◌, ◌<◌, ◌≡◌, refl, ap, ◌∙◌, true, false, Option, none, some, List, [], ◌∷◌,
  ◌++◌, All, ◌==◌, if◌then◌else◌, arith,
}
use prima_db.Text.{Text, bytes}
use prima_db.Text.Utf8.{IsByte, is_utf8, is_utf8-bytes}
use prima_db.Text.Chars.{extend_first}
use prima_db.Ord.{list_ord, nat_ord, ◌=?◌}
use prima_db.Clock.{hex_digit}
use prima_db.Storage.Components.{
  decoded, encode_component, decode_component, decode_component-encode_component,
}
use prima_db.Storage.Sortable.{JsonKind, IsInRange, hex_fixed, sortable_bits, sortable_scalar_key}
use prima_db.Storage.Sortable.JsonKind.{string, number, boolean, null, other}

-- `text.split(separator)`, for a character that is one byte.
unfoldable pub split : ℕ → Text → List Text
split separator [] = [] ∷ []
split separator (c ∷ rest) =
    let parts = split separator rest in if c == separator then [] ∷ parts else extend_first c parts

unfoldable pub direct_index_key : Text → Text → Text → Text
unfolding encode_component
direct_index_key path sortable_key node_id =
    bytes "direct"
    ++ b'/' ∷ (encode_component path ++ b'/' ∷ (sortable_key ++ b'/' ∷ encode_component node_id))

abbrev four_parts : List Text → Option (Text × Text × Text)
four_parts (kind ∷ path ∷ sortable_key ∷ node_id ∷ []) =
    if kind =? bytes "direct" then some (path, sortable_key, node_id) else none
four_parts _ = none

-- The path and the node id are left encoded.
unfoldable pub direct_index_key_parts : Text → Option (Text × Text × Text)
unfolding split
direct_index_key_parts key = four_parts (split b'/' key)

-- No character of the text is the separator.
abbrev pub IsWhole : ℕ → Text → Type 0
IsWhole separator = All (λ c. (c == separator) ≡ false)

split_last :
    (separator : ℕ) (part : Text) → IsWhole separator part → split separator part ≡ part ∷ []
unfolding split
split_last separator [] w = refl
split_last separator (c ∷ part) w = rw (w.0, split_last separator part w.1) refl

split_first :
    (separator : ℕ) (part rest : Text)
    → IsWhole separator part
    → split separator (part ++ separator ∷ rest) ≡ part ∷ split separator rest
unfolding split
split_first separator [] rest w =
    let same : (separator == separator) ≡ true = ground arith in rw same refl
split_first separator (c ∷ part) rest w = rw (w.0, split_first separator part rest w.1) refl

hex_digit-ne-slash : (d : ℕ) → d < 16 → (hex_digit d == b'/') ≡ false
unfolding hex_digit
hex_digit-ne-slash d h = ground arith

encode_component-IsWhole : (text : Text) → All IsByte text → IsWhole b'/' (encode_component text)
unfolding encode_component
encode_component-IsWhole [] a = tt
encode_component-IsWhole (byte ∷ text) a = (
  hex_digit-ne-slash (byte / 16) (omega arith),
  (hex_digit-ne-slash (byte % 16) (omega arith), encode_component-IsWhole text a.1),
)

split-direct_index_key :
    (path sortable_key node_id : Text)
    → All IsByte path
    → All IsByte node_id
    → IsWhole b'/' sortable_key
    → split b'/' (direct_index_key path sortable_key node_id)
      ≡ bytes "direct" ∷ encode_component path ∷ sortable_key ∷ encode_component node_id ∷ []
unfolding direct_index_key
split-direct_index_key path key node p n k =
    let tail = key ++ b'/' ∷ encode_component node in
    split_first b'/' (bytes "direct") (encode_component path ++ b'/' ∷ tail) (ground arith)
    ∙ ap (λ parts. bytes "direct" ∷ parts)
        (split_first b'/' (encode_component path) tail (encode_component-IsWhole path p)
          ∙ ap (λ parts. encode_component path ∷ parts)
              (split_first b'/' key (encode_component node) k
                ∙ ap (λ parts. key ∷ parts)
                    (split_last b'/' (encode_component node) (encode_component-IsWhole node n))))

hex_fixed-IsWhole :
    (width n : ℕ) (rest : Text) → IsWhole b'/' rest → IsWhole b'/' (hex_fixed width n rest)
unfolding hex_fixed
hex_fixed-IsWhole zero n rest w = w
hex_fixed-IsWhole (suc width) n rest w =
    hex_fixed-IsWhole width (n / 16) (hex_digit (n % 16) ∷ rest)
      (hex_digit-ne-slash (n % 16) (omega arith), w)

abbrev WholeKey : Option Text → Type 0
WholeKey none = Unit
WholeKey (some key) = IsWhole b'/' key

sortable_scalar_key-IsWhole : (v : JsonKind) → IsInRange v → WholeKey (sortable_scalar_key v)
unfolding sortable_scalar_key
sortable_scalar_key-IsWhole (string value) r = (refl, (refl, encode_component-IsWhole value r))
sortable_scalar_key-IsWhole (number none) r = tt
sortable_scalar_key-IsWhole (number (some bits)) r =
    (refl, (refl, hex_fixed-IsWhole 16 (sortable_bits bits) [] tt))
sortable_scalar_key-IsWhole (boolean true) r = ground arith
sortable_scalar_key-IsWhole (boolean false) r = ground arith
sortable_scalar_key-IsWhole null r = ground arith
sortable_scalar_key-IsWhole other r = tt

-- The key of an entry of the direct index is read back into its parts, and the path and the node id
-- are read back from theirs, if the path and the node id are UTF-8 and the scalar is one that has
-- a sortable key.
pub direct_index_key_parts-direct_index_key :
    (path node_id : Text) (v : JsonKind) {sortable_key : Text}
    → is_utf8 path ≡ true
    → is_utf8 node_id ≡ true
    → IsInRange v
    → sortable_scalar_key v ≡ some sortable_key
    → (direct_index_key_parts (direct_index_key path sortable_key node_id)
        ≡ some (encode_component path, sortable_key, encode_component node_id))
      × (decode_component (encode_component path) ≡ decoded path)
      × (decode_component (encode_component node_id) ≡ decoded node_id)
unfolding direct_index_key_parts list_ord nat_ord
direct_index_key_parts-direct_index_key path node v {sortable_key} p n r h = (
  ap four_parts (
      split-direct_index_key path sortable_key node (is_utf8-bytes path p) (is_utf8-bytes node n)
        (rw h at (sortable_scalar_key-IsWhole v r))),
  decode_component-encode_component path p,
  decode_component-encode_component node n,
)
