-- ===== src/Text/Utf8.antt =====
-- Which bytes are UTF-8: what `String::from_utf8` checks.
use prima_db.Prelude.{
  ℕ, ◌<◌, ◌≡◌, Bool, true, false, ◌&&◌, Option-cases, inl, inr, Option, none, some, List, [], ◌∷◌,
  All, ltb, leb, if◌then◌else◌, arith,
}
use prima_db.Text.{Text}

-- The bytes from the first number to the last.
abbrev pub Range : Type 0
Range = ℕ × ℕ

abbrev continuation : Range
continuation = (0x80, 0xbf)

-- The ranges of the bytes that complete a character, by its first byte.
unfoldable pub completion : ℕ → Option (List Range)
completion c =
    if ltb c 0x80
    then some []
    else if ltb c 0xc2
    then none
    else if ltb c 0xe0
    then some (continuation ∷ [])
    else if ltb c 0xe1
    then some ((0xa0, 0xbf) ∷ continuation ∷ [])
    else if ltb c 0xed
    then some (continuation ∷ continuation ∷ [])
    else if ltb c 0xee
    then some ((0x80, 0x9f) ∷ continuation ∷ [])
    else if ltb c 0xf0
    then some (continuation ∷ continuation ∷ [])
    else if ltb c 0xf1
    then some ((0x90, 0xbf) ∷ continuation ∷ continuation ∷ [])
    else if ltb c 0xf4
    then some (continuation ∷ continuation ∷ continuation ∷ [])
    else if ltb c 0xf5
    then some ((0x80, 0x8f) ∷ continuation ∷ continuation ∷ [])
    else none

-- The text completes a character by bytes in these ranges, and goes on in UTF-8.
unfoldable pub completes : List Range → Text → Bool
unfolding completion
completes [] [] = true
completes (range ∷ ranges) [] = false
completes [] (c ∷ rest) = elim (completion c) [ none ↦ false | some ranges ↦ completes ranges rest ]
completes ((low, high) ∷ ranges) (c ∷ rest) = leb low c && (leb c high && completes ranges rest)

unfoldable pub is_utf8 : Text → Bool
unfolding completes
is_utf8 text = completes [] text

abbrev pub IsByte : ℕ → Type 0
IsByte b = b < 256

abbrev EndsAtByte : Range → Type 0
EndsAtByte range = range.1 < 256

completion-bytes :
    (c : ℕ) (ranges : List Range) → completion c ≡ some ranges → IsByte c × All EndsAtByte ranges
unfolding completion
completion-bytes c ranges h = ground arith

completes-bytes :
    (ranges : List Range) (text : Text)
    → All EndsAtByte ranges
    → completes ranges text ≡ true
    → All IsByte text
unfolding completes
completes-bytes [] [] a h = tt
completes-bytes (range ∷ ranges) [] a h = tt
completes-bytes [] (c ∷ rest) a h = elim (Option-cases (completion c)) [
  | inl bad ↦ absurd (ground arith)
  | inr (ranges, found) ↦
      let (byte, ends) = completion-bytes c ranges found in
      (byte, completes-bytes ranges rest ends (rw (completes, found) at h))
]
completes-bytes ((low, high) ∷ ranges) (c ∷ rest) a h =
    (ground arith, completes-bytes ranges rest a.1 (ground arith))

-- UTF-8 is bytes.
pub is_utf8-bytes : (text : Text) → is_utf8 text ≡ true → All IsByte text
unfolding is_utf8
is_utf8-bytes text = completes-bytes [] text tt
