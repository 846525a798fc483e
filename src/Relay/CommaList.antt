-- ===== src/Relay/CommaList.antt =====
-- Lists of texts between commas: the `split`, `trim` and `filter` of `collect_peer_recommendations`
-- in transport.rs.
use prima_db.Prelude.{
  Bool, true, false, not, ◌&&◌, ◌||◌, List, [], ◌∷◌, map, reverse, retain, leb, ◌==◌, if◌then◌else◌,
}
use prima_db.Text.{Text}
use prima_db.Text.Chars.{chars, concat}
use prima_db.Storage.Keys.{split}

-- The characters with the property White_Space of Unicode, in UTF-8.
abbrev is_whitespace : Text → Bool
is_whitespace (a ∷ []) = (leb 0x09 a && leb a 0x0d) || (a == 0x20)
is_whitespace (a ∷ b ∷ []) = (a == 0xc2) && ((b == 0x85) || (b == 0xa0))
is_whitespace (a ∷ b ∷ c ∷ []) =
    ((a == 0xe1) && ((b == 0x9a) && (c == 0x80)))
    || (((a == 0xe2)
          && (((b == 0x80) && (leb c 0x8a || ((c == 0xa8) || ((c == 0xa9) || (c == 0xaf)))))
              || ((b == 0x81) && (c == 0x9f))))
        || ((a == 0xe3) && ((b == 0x80) && (c == 0x80))))
is_whitespace _ = false

abbrev trim_start : List Text → List Text
trim_start [] = []
trim_start (c ∷ characters) =
    let later = trim_start characters in if is_whitespace c then later else c ∷ characters

-- `str::trim`
unfoldable pub trim : Text → Text
unfolding chars concat
trim text = concat (reverse (trim_start (reverse (trim_start (chars text)))))

abbrev is_empty : Text → Bool
is_empty [] = true
is_empty (c ∷ text) = false

unfoldable pub comma_list : Text → List Text
unfolding split trim
comma_list value = retain (λ t. not (is_empty t)) (map trim (split b',' value))
