-- ===== src/Storage/Sortable.antt =====
-- The keys of scalars in an index: `sortable_scalar_key` of engine.rs. `JsonKind` is what the code
-- asks of a JSON value; a number is the bits of `as_f64`, where it has one.
use native.Mathlib.Nat.{pow-suc}
use prima_db.Prelude.{
  ℕ, zero, suc, ◌+◌, ◌-◌, ◌/◌, ◌%◌, ◌^◌, ◌<◌, ◌≡◌, refl, ◌∙◌, Bool, true, false, Option, none, some,
  [], ◌∷◌, ◌++◌, All, Ordering, lt, eq, gt, compare, ltb, if◌then◌else◌, arith,
}
use prima_db.Text.{Text, bytes}
use prima_db.Text.Utf8.{IsByte}
use prima_db.Ord.{nat_ord, list_ord, cmp_list, then_with}
use prima_db.Clock.{hex_digit}
use prima_db.Storage.Components.{encode_component}

pub data JsonKind : Type 0 where
  string : Text → JsonKind
  number : Option ℕ → JsonKind
  boolean : Bool → JsonKind
  null other : JsonKind

-- `{:0width$x}` before the text `rest`, for a number of at most `width` digits.
unfoldable pub hex_fixed : ℕ → ℕ → Text → Text
hex_fixed zero n rest = rest
hex_fixed (suc width) n rest = hex_fixed width (n / 16) (hex_digit (n % 16) ∷ rest)

-- On a `u64`. Where the sign bit is 0, `bits ^ (1 << 63)` adds it; `!bits` takes from all ones.
unfoldable pub sortable_bits : ℕ → ℕ
sortable_bits bits = if ltb bits (2 ^ 63) then bits + 2 ^ 63 else 2 ^ 64 - 1 - bits

unfoldable pub sortable_scalar_key : JsonKind → Option Text
sortable_scalar_key (string value) = some (bytes "s_" ++ encode_component value)
sortable_scalar_key (number none) = none
sortable_scalar_key (number (some bits)) = some (bytes "n_" ++ hex_fixed 16 (sortable_bits bits) [])
sortable_scalar_key (boolean value) = some (bytes "b_" ++ (if value then b'1' else b'0') ∷ [])
sortable_scalar_key null = some (bytes "z_null")
sortable_scalar_key other = none

-- `f64::total_cmp` on the bits of two numbers: below zero the larger magnitude comes first.
unfoldable pub total_cmp : ℕ → ℕ → Ordering
total_cmp a b =
    if ltb a (2 ^ 63)
    then if ltb b (2 ^ 63) then compare a b else gt
    else if ltb b (2 ^ 63)
    then lt
    else compare b a

abbrev rank : JsonKind → ℕ
rank (boolean value) = 0
rank (number bits) = 1
rank (string value) = 2
rank null = 3
rank other = 4

abbrev within : JsonKind → JsonKind → Ordering
within (string a) (string b) = cmp_list a b
within (number (some a)) (number (some b)) = total_cmp a b
within (boolean a) (boolean b) = compare (if a then 1 else 0) (if b then 1 else 0)
within a b = eq

-- The order that an index promises: Booleans, numbers, strings and `null`, each by its own order.
unfoldable pub cmp_scalar : JsonKind → JsonKind → Ordering
unfolding total_cmp
cmp_scalar a b = then_with (compare (rank a) (rank b)) (within a b)

-- The values of the machine's types.
abbrev pub IsInRange : JsonKind → Type 0
IsInRange (string value) = All IsByte value
IsInRange (number (some bits)) = bits < 2 ^ 64
IsInRange _ = Unit

hex_digit-compare : (c d : ℕ) → c < 16 → d < 16 → compare (hex_digit c) (hex_digit d) ≡ compare c d
unfolding hex_digit
hex_digit-compare c d h k = ground arith

cmp_bytes :
    (a b : ℕ) (rest : Ordering)
    → then_with (compare (a / 16) (b / 16)) (then_with (compare (a % 16) (b % 16)) rest)
      ≡ then_with (compare a b) rest
cmp_bytes a b rest = ground arith

-- The codec of key components keeps the order of texts.
pub encode_component-cmp :
    (a b : Text)
    → All IsByte a
    → All IsByte b
    → cmp_list (encode_component a) (encode_component b) ≡ cmp_list a b
unfolding encode_component nat_ord
encode_component-cmp [] [] p q = refl
encode_component-cmp [] (y ∷ ys) p q = refl
encode_component-cmp (x ∷ xs) [] p q = refl
encode_component-cmp (x ∷ xs) (y ∷ ys) p q =
    rw
      (
        hex_digit-compare (x / 16) (y / 16) (omega arith) (omega arith),
        hex_digit-compare (x % 16) (y % 16) (omega arith) (omega arith),
        encode_component-cmp xs ys p.1 q.1,
      )
      (cmp_bytes x y (cmp_list xs ys))

hex_fixed-cmp :
    (width m n : ℕ) (s t : Text)
    → m < 16 ^ width
    → n < 16 ^ width
    → cmp_list (hex_fixed width m s) (hex_fixed width n t) ≡ then_with (compare m n) (cmp_list s t)
unfolding hex_fixed nat_ord
hex_fixed-cmp zero m n s t p q = let same : compare m n ≡ eq = ground arith in rw same refl
hex_fixed-cmp (suc width) m n s t p q =
    hex_fixed-cmp width (m / 16) (n / 16) (hex_digit (m % 16) ∷ s) (hex_digit (n % 16) ∷ t)
      (omega (arith, pow-suc 16 width)) (omega (arith, pow-suc 16 width))
    ∙ rw (hex_digit-compare (m % 16) (n % 16) (omega arith) (omega arith))
        (cmp_bytes m n (cmp_list s t))

sortable_bits-cmp :
    (a b : ℕ)
    → a < 2 ^ 64
    → b < 2 ^ 64
    → compare (sortable_bits a) (sortable_bits b) ≡ total_cmp a b
unfolding sortable_bits total_cmp
sortable_bits-cmp a b p q = ground arith

sortable_bits-lt : (bits : ℕ) → bits < 2 ^ 64 → sortable_bits bits < 16 ^ 16
unfolding sortable_bits
sortable_bits-lt bits h = ground arith

sortable_number-cmp :
    (a b : ℕ)
    → a < 2 ^ 64
    → b < 2 ^ 64
    → cmp_list (hex_fixed 16 (sortable_bits a) []) (hex_fixed 16 (sortable_bits b) [])
      ≡ total_cmp a b
sortable_number-cmp a b p q =
    hex_fixed-cmp 16 (sortable_bits a) (sortable_bits b) [] [] (sortable_bits-lt a p)
      (sortable_bits-lt b q)
    ∙ (ground arith ∙ sortable_bits-cmp a b p q)

-- Two keys compare so, where both scalars have one.
abbrev Compare : Option Text → Option Text → Ordering → Type 0
Compare (some k) (some l) order = cmp_list k l ≡ order
Compare _ _ order = Unit

sortable_scalar_key-Compare :
    (a b : JsonKind)
    → IsInRange a
    → IsInRange b
    → Compare (sortable_scalar_key a) (sortable_scalar_key b) (cmp_scalar a b)
unfolding sortable_scalar_key cmp_scalar nat_ord
sortable_scalar_key-Compare (string a) (string b) p q = encode_component-cmp a b p q
sortable_scalar_key-Compare (number (some a)) (number (some b)) p q = sortable_number-cmp a b p q
sortable_scalar_key-Compare (boolean true) (boolean b) p q = ground arith
sortable_scalar_key-Compare (boolean false) (boolean b) p q = ground arith
sortable_scalar_key-Compare _ _ p q = ground arith

-- Two scalars that an index takes stand in it as their values do.
pub sortable_scalar_key-cmp :
    (a b : JsonKind) {k l : Text}
    → IsInRange a
    → IsInRange b
    → sortable_scalar_key a ≡ some k
    → sortable_scalar_key b ≡ some l
    → cmp_list k l ≡ cmp_scalar a b
sortable_scalar_key-cmp a b p q h i = rw (h, i) at (sortable_scalar_key-Compare a b p q)
