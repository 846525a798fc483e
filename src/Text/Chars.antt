-- ===== src/Text/Chars.antt =====
-- The characters of a text, as `str::chars` finds them: each is its bytes.
use prima_db.Prelude.{
  suc, inl, inr, Bool-cases, ◌≡◌, ◌≤◌, ◌+◌, refl, ap, ◌∙◌, Bool, true, false, List, [], ◌∷◌, ◌++◌,
  length, All, if◌then◌else◌, ℕ, arith,
}
use prima_db.Text.{Text, is_continuation}

-- The text goes on with a byte inside a character.
abbrev pub begins_inside : Text → Bool
begins_inside [] = false
begins_inside (c ∷ rest) = is_continuation c

-- The byte before the first of the texts.
abbrev pub extend_first : ℕ → List Text → List Text
extend_first c [] = (c ∷ []) ∷ []
extend_first c (first ∷ later) = (c ∷ first) ∷ later

unfoldable pub chars : Text → List Text
unfolding is_continuation
chars [] = []
chars (c ∷ rest) = if begins_inside rest then extend_first c (chars rest) else (c ∷ []) ∷ chars rest

-- The texts one after the other.
unfoldable pub concat : List Text → Text
concat [] = []
concat (text ∷ texts) = text ++ concat texts

concat-extend_first : (c : ℕ) (texts : List Text) → concat (extend_first c texts) ≡ c ∷ concat texts
unfolding concat
concat-extend_first c [] = refl
concat-extend_first c (first ∷ later) = refl

concat-choose :
    (b : Bool) (s t : List Text) (u : Text)
    → concat s ≡ u
    → concat t ≡ u
    → concat (if b then s else t) ≡ u
concat-choose true s t u p q = p
concat-choose false s t u p q = q

-- The characters one after the other are the text.
pub concat-chars : (text : Text) → concat (chars text) ≡ text
unfolding chars concat
concat-chars [] = refl
concat-chars (c ∷ rest) =
    concat-choose (begins_inside rest) (extend_first c (chars rest)) ((c ∷ []) ∷ chars rest)
      (c ∷ rest) (concat-extend_first c (chars rest) ∙ ap (λ t. c ∷ t) (concat-chars rest))
      (ap (λ t. c ∷ t) (concat-chars rest))

-- `text.chars().count()`
abbrev pub count_chars : Text → ℕ
count_chars text = length (chars text)

-- The first character begins with the first byte.
chars_first :
    (c : ℕ) (rest : Text)
    → (inner : Text) × (later : List Text) × (chars (c ∷ rest) ≡ (c ∷ inner) ∷ later)
unfolding chars
chars_first c [] = ([], [], refl)
chars_first c (d ∷ rest) = elim (Bool-cases (is_continuation d)) [
  | inl inside ↦
      let (inner, later, first) = chars_first d rest in (d ∷ inner, later, rw (inside, first) refl)
  | inr outside ↦ ([], chars (d ∷ rest), rw outside refl)
]

count_chars_step :
    (c d : ℕ) (rest : Text)
    → count_chars (c ∷ d ∷ rest)
      ≡ (if is_continuation d then count_chars (d ∷ rest) else suc (count_chars (d ∷ rest)))
unfolding chars
count_chars_step c d rest = elim (Bool-cases (is_continuation d)) [
  | inl inside ↦ let (inner, later, first) = chars_first d rest in rw (inside, first) refl
  | inr outside ↦ rw outside refl
]

pub no_chars : count_chars [] ≡ 0
unfolding chars
no_chars = refl

one_char : (c : ℕ) → count_chars (c ∷ []) ≡ 1
unfolding chars
one_char c = refl

-- Joining two texts makes no character.
pub count_chars-append : (a b : Text) → count_chars (a ++ b) ≤ count_chars a + count_chars b
count_chars-append [] b = let none_yet : count_chars [] ≡ 0 = no_chars in omega arith
count_chars-append (c ∷ []) [] = omega arith
count_chars-append (c ∷ []) (d ∷ b) = ground (arith, count_chars_step c d b, one_char c)
count_chars-append (c ∷ x ∷ a) b =
    ground
      (arith, count_chars_step c x (a ++ b), count_chars_step c x a, count_chars-append (x ∷ a) b)

-- A text of at most one character.
abbrev pub IsChar : Text → Type 0
IsChar text = count_chars text ≤ 1

pub chars-IsChar : (text : Text) → All IsChar (chars text)
unfolding chars
chars-IsChar [] = tt
chars-IsChar (c ∷ []) = (omega (arith, one_char c), tt)
chars-IsChar (c ∷ d ∷ rest) = elim (Bool-cases (is_continuation d)) [
  | inl inside ↦
      let (inner, later, first) = chars_first d rest in
      let known : All IsChar ((d ∷ inner) ∷ later) = rw first at (chars-IsChar (d ∷ rest)) in
      rw (inside, first) (ground (arith, count_chars_step c d inner), known.1)
  | inr outside ↦ rw outside (omega (arith, one_char c), chars-IsChar (d ∷ rest))
]
