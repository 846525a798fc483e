-- ===== src/Clock/OpIdText.antt =====
-- The text of operation and node ids: `sanitize_component` and the formats of clock.rs.
use prima_db.Prelude.{
  ℕ, zero, suc, ◌+◌, ◌-◌, ◌/◌, ◌%◌, Bool, [], ◌∷◌, ◌++◌, ltb, leb, ◌==◌, ◌&&◌, ◌||◌, if◌then◌else◌,
}
use prima_db.Text.{Text, bytes, is_continuation}

-- The digit that `{:x}` writes for a number below 16.
unfoldable pub hex_digit : ℕ → ℕ
hex_digit d = if ltb d 10 then b'0' + d else b'a' + (d - 10)

-- `{:x}` on at most `fuel` digits, before the text `rest`.
unfoldable pub hex_before : ℕ → ℕ → Text → Text
unfolding hex_digit
hex_before zero n rest = rest
hex_before (suc fuel) n rest =
    let more = hex_before fuel (n / 16) (hex_digit (n % 16) ∷ rest) in
    if ltb n 16 then hex_digit n ∷ rest else more

-- A `u64` has at most 16 digits.
unfoldable pub hex : ℕ → Text
unfolding hex_before
hex n = hex_before 16 n []

unfoldable pub is_component_byte : ℕ → Bool
is_component_byte c =
    (leb b'0' c && leb c b'9')
    || ((leb b'a' c && leb c b'z')
        || ((leb b'A' c && leb c b'Z') || ((c == b'-') || ((c == b'_') || (c == b'.')))))

-- One character at a time: an ASCII character is one byte, and any other is replaced whole.
unfoldable pub sanitize_chars : Text → Text
unfolding is_component_byte is_continuation
sanitize_chars [] = []
sanitize_chars (c ∷ rest) =
    let clean = sanitize_chars rest in
    if is_component_byte c then c ∷ clean else if is_continuation c then clean else b'-' ∷ clean

unfoldable pub sanitize_component : Text → Text
unfolding sanitize_chars
sanitize_component input = elim (sanitize_chars input) [ [] ↦ bytes "node" | c ∷ rest ↦ c ∷ rest ]

unfoldable pub op_id_text : Text → Text → ℕ → ℕ → ℕ → Text
unfolding sanitize_component hex
op_id_text actor namespace millis counter sequence =
    sanitize_component actor
    ++ (b'/'
        ∷ (sanitize_component namespace
            ++ (b'/' ∷ (hex millis ++ (b'-' ∷ (hex counter ++ (b'-' ∷ hex sequence)))))))

unfoldable pub node_id_text : Text → Text → ℕ → Text
unfolding sanitize_component hex
node_id_text actor hint sequence =
    sanitize_component actor ++ (b'/' ∷ (sanitize_component hint ++ (b'/' ∷ hex sequence)))
