-- ===== src/Clock/Ids.antt =====
-- Operation and node ids can be read back, so ids of one clock never repeat.
use native.Mathlib.Nat.{pow-suc}
use prima_db.Prelude.{
  ℕ, zero, suc, ◌+◌, ◌-◌, ◌*◌, ◌/◌, ◌%◌, ◌^◌, ◌<◌, ◌≤◌, ◌≡◌, ◌≢◌, refl, ap, ◌∙◌, [], ◌∷◌, ◌++◌, All,
  ltb, Bool, true, false, Bool-cases, inl, inr, arith, if◌then◌else◌, saturating_add,
}
use prima_db.Text.{Text, bytes, is_continuation}
use prima_db.Clock.{
  HybridClock, hex_digit, hex_before, hex, is_component_byte, sanitize_chars, sanitize_component,
  op_id_text, next_op_id, u64_max, IsInRange,
}

-- The number that a lower-case hexadecimal digit stands for.
digit_value : ℕ → ℕ
digit_value c = if ltb c b'a' then c - b'0' else c - b'a' + 10

hex_value : ℕ → Text → ℕ
unfolding digit_value
hex_value acc [] = acc
hex_value acc (c ∷ rest) = hex_value (acc * 16 + digit_value c) rest

digit_value-hex_digit : (d : ℕ) → d < 16 → digit_value (hex_digit d) ≡ d
unfolding digit_value hex_digit
digit_value-hex_digit d h = ground arith

below_sixteenth : (f n : ℕ) → n < 16 ^ suc f → n / 16 < 16 ^ f
below_sixteenth f n h = let e : 16 ^ suc f ≡ 16 ^ f * 16 = pow-suc 16 f in omega arith

hex_value-hex_before :
    (fuel n : ℕ) (rest : Text)
    → n < 16 ^ fuel
    → hex_value 0 (hex_before fuel n rest) ≡ hex_value n rest
unfolding hex_value hex_before
hex_value-hex_before zero n rest h = ap (λ m. hex_value m rest) (omega arith)
hex_value-hex_before (suc fuel) n rest h = elim (Bool-cases (ltb n 16)) [
  | inl small ↦
      rw small (ap (λ m. hex_value m rest) (omega (arith, digit_value-hex_digit n (ground arith))))
  | inr large ↦ rw large (
      hex_value-hex_before fuel (n / 16) (hex_digit (n % 16) ∷ rest) (below_sixteenth fuel n h)
      ∙ ap (λ m. hex_value m rest) (omega (arith, digit_value-hex_digit (n % 16) (omega arith))))
]

hex_value-hex : (n : ℕ) → n ≤ u64_max → hex_value 0 (hex n) ≡ n
unfolding hex hex_value
hex_value-hex n h = hex_value-hex_before 16 n [] (omega arith)

hex-injective : (m n : ℕ) → m ≤ u64_max → n ≤ u64_max → hex m ≡ hex n → m ≡ n
hex-injective m n p q e = cc (hex_value-hex m p, hex_value-hex n q, ap (hex_value 0) e)

-- A text without the byte `sep`.
abbrev Without : ℕ → Text → Type 0
Without sep = All (λ c. c ≢ sep)

split_at_sep :
    (sep : ℕ) (xs ys : Text) {s t : Text}
    → Without sep xs
    → Without sep ys
    → xs ++ sep ∷ s ≡ ys ++ sep ∷ t
    → (xs ≡ ys) × (s ≡ t)
split_at_sep sep [] [] a b e = (refl, cc)
split_at_sep sep [] (y ∷ ys) a b e = absurd (b.0 (cc))
split_at_sep sep (x ∷ xs) [] a b e = absurd (a.0 (cc))
split_at_sep sep (x ∷ xs) (y ∷ ys) {s} {t} a b e =
    let tails : xs ++ sep ∷ s ≡ ys ++ sep ∷ t = cc in
    let (p, q) = split_at_sep sep xs ys a.1 b.1 tails in (cc, q)

hex_digit-ne : (d : ℕ) → d < 16 → (hex_digit d ≢ b'-') × (hex_digit d ≢ b'/')
unfolding hex_digit
hex_digit-ne d h = (λ e. ground arith, λ e. ground arith)

hex_before-Without :
    (fuel n : ℕ) (rest : Text) → Without b'-' rest → Without b'-' (hex_before fuel n rest)
unfolding hex_before
hex_before-Without zero n rest h = h
hex_before-Without (suc fuel) n rest h = elim (Bool-cases (ltb n 16)) [
  | inl small ↦ rw small ((hex_digit-ne n (ground arith)).0, h)
  | inr large ↦ rw large (
      hex_before-Without fuel (n / 16) (hex_digit (n % 16) ∷ rest)
        ((hex_digit-ne (n % 16) (omega arith)).0, h))
]

hex-Without : (n : ℕ) → Without b'-' (hex n)
unfolding hex
hex-Without n = hex_before-Without 16 n [] tt

component_ne : (c : ℕ) → is_component_byte c ≡ true → c ≢ b'/'
unfolding is_component_byte
component_ne c h e = ground arith

sanitize_step :
    (c : ℕ) (kept cont : Bool) (clean : Text)
    → (kept ≡ true → c ≢ b'/')
    → Without b'/' clean
    → Without b'/' (if kept then c ∷ clean else if cont then clean else b'-' ∷ clean)
sanitize_step c true cont clean h w = (h refl, w)
sanitize_step c false true clean h w = w
sanitize_step c false false clean h w = (λ e. omega arith, w)

sanitize_chars-Without : (s : Text) → Without b'/' (sanitize_chars s)
unfolding sanitize_chars
sanitize_chars-Without [] = tt
sanitize_chars-Without (c ∷ rest) =
    sanitize_step c (is_component_byte c) (is_continuation c) (sanitize_chars rest) (component_ne c)
      (sanitize_chars-Without rest)

node_if_empty :
    (s : Text) → Without b'/' s → Without b'/' (elim s [ [] ↦ bytes "node" | c ∷ rest ↦ c ∷ rest ])
node_if_empty [] w = omega arith
node_if_empty (c ∷ rest) w = w

sanitize_component-Without : (s : Text) → Without b'/' (sanitize_component s)
unfolding sanitize_component
sanitize_component-Without s = node_if_empty (sanitize_chars s) (sanitize_chars-Without s)

-- The last three parts of an operation id.
stamps_injective :
    (m m' k k' s s' : ℕ)
    → (m ≤ u64_max) × (m' ≤ u64_max)
    → (k ≤ u64_max) × (k' ≤ u64_max)
    → (s ≤ u64_max) × (s' ≤ u64_max)
    → hex m ++ (b'-' ∷ (hex k ++ (b'-' ∷ hex s))) ≡ hex m' ++ (b'-' ∷ (hex k' ++ (b'-' ∷ hex s')))
    → (m ≡ m') × (k ≡ k') × (s ≡ s')
stamps_injective m m' k k' s s' hm hk hs e =
    let (em, e₁) = split_at_sep b'-' (hex m) (hex m') (hex-Without m) (hex-Without m') e in
    let (ek, es) = split_at_sep b'-' (hex k) (hex k') (hex-Without k) (hex-Without k') e₁ in
    (
      hex-injective m m' hm.0 hm.1 em,
      hex-injective k k' hk.0 hk.1 ek,
      hex-injective s s' hs.0 hs.1 es,
    )

-- Equal operation ids have equal actors and namespaces, up to sanitising, and equal time, counter and
-- sequence number, where the numbers are in the range of `u64`.
pub op_id_text-injective :
    (a a' n n' : Text) (m m' k k' s s' : ℕ)
    → (m ≤ u64_max) × (m' ≤ u64_max)
    → (k ≤ u64_max) × (k' ≤ u64_max)
    → (s ≤ u64_max) × (s' ≤ u64_max)
    → op_id_text a n m k s ≡ op_id_text a' n' m' k' s'
    → (sanitize_component a ≡ sanitize_component a')
      × (sanitize_component n ≡ sanitize_component n')
      × (m ≡ m')
      × (k ≡ k')
      × (s ≡ s')
unfolding op_id_text
op_id_text-injective a a' n n' m m' k k' s s' hm hk hs e =
    let clean = sanitize_component-Without in
    let (ea, e₁) =
      split_at_sep b'/' (sanitize_component a) (sanitize_component a') (clean a) (clean a') e in
    let (en, e₂) =
      split_at_sep b'/' (sanitize_component n) (sanitize_component n') (clean n) (clean n') e₁ in
    let (em, ek, es) = stamps_injective m m' k k' s s' hm hk hs e₂ in (ea, en, em, ek, es)

-- An operation id and the next one that the clock issues, whatever revisions it issues or observes
-- between, differ: here `c` and `d` are the states before the two calls, `d` with a sequence number
-- no lower than the first call left, and below the largest `u64`.
pub next_op_id-ne :
    (c d : HybridClock) (n n' : Text)
    → IsInRange c
    → IsInRange d
    → (next_op_id c n).0.sequence ≤ d.sequence
    → d.sequence < u64_max
    → (next_op_id c n).1 ≢ (next_op_id d n').1
unfolding next_op_id
next_op_id-ne c d n n' hc hd later room e =
    let same =
      op_id_text-injective c.actor d.actor n n' c.last_millis d.last_millis c.counter d.counter
        (saturating_add u64_max c.sequence 1) (saturating_add u64_max d.sequence 1) (omega arith)
        (omega arith) (ground arith) e in
    ground (arith, same.4)
