-- ===== src/Streams/Chunks.antt =====
-- `chunk_string` of overlay.rs.
use prima_db.Prelude.{
  ℕ, ◌≤◌, ◌<◌, ◌≡◌, refl, ap, sym, ◌∙◌, Bool-cases, inl, inr, List, [], ◌∷◌, ◌++◌, length,
  length-append, All, All-append, leb, if◌then◌else◌, arith,
}
use mathlib.Core.List.{append_assoc, append-nil}
use prima_db.Text.{Text}
use prima_db.Text.Chars.{
  chars, concat, concat-chars, count_chars, count_chars-append, no_chars, IsChar, chars-IsChar,
}

abbrev last_chunk : List Text → List Text
last_chunk [] = []
last_chunk (c ∷ current) = concat (c ∷ current) ∷ []

-- The loop over the characters; `current` has those of the chunk that is being filled.
unfoldable pub fill_chunks : ℕ → List Text → List Text → List Text
unfolding concat
fill_chunks max_chars current [] = last_chunk current
fill_chunks max_chars current (character ∷ characters) =
    let filled = current ++ character ∷ [] in
    let begin = fill_chunks max_chars [] characters in
    let go_on = fill_chunks max_chars filled characters in
    if leb max_chars (length filled) then concat filled ∷ begin else go_on

unfoldable pub chunk_string : Text → ℕ → List Text
unfolding fill_chunks chars
chunk_string [] max_chars = [] ∷ []
chunk_string (c ∷ value) max_chars = fill_chunks max_chars [] (chars (c ∷ value))

concat-append : (xs ys : List Text) → concat (xs ++ ys) ≡ concat xs ++ concat ys
unfolding concat
concat-append [] ys = refl
concat-append (x ∷ xs) ys =
    ap (λ t. x ++ t) (concat-append xs ys) ∙ sym (append_assoc x (concat xs) (concat ys))

concat-last_chunk : (current : List Text) → concat (last_chunk current) ≡ concat current
unfolding concat
concat-last_chunk [] = refl
concat-last_chunk (c ∷ current) = append-nil (concat (c ∷ current))

concat-fill_chunks :
    (max_chars : ℕ) (current characters : List Text)
    → concat (fill_chunks max_chars current characters) ≡ concat current ++ concat characters
unfolding fill_chunks concat
concat-fill_chunks m current [] = concat-last_chunk current ∙ sym (append-nil (concat current))
concat-fill_chunks m current (c ∷ characters) =
    let filled = current ++ c ∷ [] in
    let same : concat filled ++ concat characters ≡ concat current ++ (c ++ concat characters) =
      ap (λ t. t ++ concat characters) (concat-append current (c ∷ []))
      ∙ append_assoc (concat current) (c ++ []) (concat characters)
      ∙ ap (λ t. concat current ++ (t ++ concat characters)) (append-nil c) in
    elim (Bool-cases (leb m (length filled))) [
      | inl full ↦
          rw full (ap (λ t. concat filled ++ t) (concat-fill_chunks m [] characters) ∙ same)
      | inr room ↦ rw room (concat-fill_chunks m filled characters ∙ same)
    ]

-- The chunks one after the other are the text.
pub concat-chunk_string :
    (value : Text) (max_chars : ℕ) → concat (chunk_string value max_chars) ≡ value
unfolding chunk_string concat
concat-chunk_string [] m = refl
concat-chunk_string (c ∷ value) m =
    concat-fill_chunks m [] (chars (c ∷ value)) ∙ concat-chars (c ∷ value)

abbrev pub IsWithin : ℕ → Text → Type 0
IsWithin max_chars chunk = count_chars chunk ≤ max_chars

count_chars-concat :
    (texts : List Text) → All IsChar texts → count_chars (concat texts) ≤ length texts
unfolding concat
count_chars-concat [] a = omega (arith, no_chars)
count_chars-concat (x ∷ texts) a =
    omega (arith, count_chars-append x (concat texts), count_chars-concat texts a.1)

fill_chunks-IsWithin :
    (max_chars : ℕ) (current characters : List Text)
    → length current < max_chars
    → All IsChar current
    → All IsChar characters
    → All (IsWithin max_chars) (fill_chunks max_chars current characters)
unfolding fill_chunks
fill_chunks-IsWithin m [] [] room a b = tt
fill_chunks-IsWithin m (x ∷ current) [] room a b =
    (omega (arith, count_chars-concat (x ∷ current) a), tt)
fill_chunks-IsWithin m current (c ∷ characters) room a b =
    let filled = current ++ c ∷ [] in
    let whole = All-append IsChar current (c ∷ []) a (b.0, tt) in
    let count = length-append current (c ∷ []) in
    elim (Bool-cases (leb m (length filled))) [
      | inl full ↦ rw full (
        ground (arith, count_chars-concat filled whole),
        fill_chunks-IsWithin m [] characters (omega arith) tt b.1,
      )
      | inr more ↦ rw more (fill_chunks-IsWithin m filled characters (ground arith) whole b.1)
    ]

-- No chunk has more characters than the limit, if the limit is not 0.
pub chunk_string-IsWithin :
    (value : Text) (max_chars : ℕ)
    → 0 < max_chars
    → All (IsWithin max_chars) (chunk_string value max_chars)
unfolding chunk_string
chunk_string-IsWithin [] m h = (omega (arith, no_chars), tt)
chunk_string-IsWithin (c ∷ value) m h =
    fill_chunks-IsWithin m [] (chars (c ∷ value)) h tt (chars-IsChar (c ∷ value))
