-- ===== src/Text.antt =====
-- Rust's `String`: its bytes in UTF-8. `str` is compared byte by byte, as here.
pub mod Utf8
pub mod Chars
use Prim.Native.Char.{code}
use Prim.Native.String.{String}
use prima_db.Prelude.{ℕ, Bool, true, false, ◌&&◌, List, [], ◌∷◌, leb, ◌==◌}

abbrev pub Text : Type 0
Text = List ℕ

-- The bytes of an ASCII literal.
abbrev pub bytes : String → Text
bytes String.[] = []
bytes (String.◌∷◌ c s) = code c ∷ bytes s

-- `text.starts_with(prefix)`
unfoldable pub starts_with : Text → Text → Bool
starts_with text [] = true
starts_with [] (p ∷ ps) = false
starts_with (c ∷ text) (p ∷ ps) = (c == p) && starts_with text ps

-- A continuation byte of UTF-8 belongs to the character before it; any other byte begins one.
unfoldable pub is_continuation : ℕ → Bool
is_continuation c = leb 0x80 c && leb c 0xbf
