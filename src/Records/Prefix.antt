-- ===== src/Records/Prefix.antt =====
-- The prefix by which a store narrows a scan: `record_scan_key_prefix` of engine.rs.
use prima_db.Prelude.{
  ◌≡◌, refl, subst, Bool, true, false, not, ◌&&◌, Bool-cases, inl, inr, Option, none, some, List,
  [], ◌∷◌, ◌++◌, if◌then◌else◌, arith,
}
use prima_db.Text.{Text, starts_with}
use prima_db.Text.Chars.{chars, concat, concat-chars}
use prima_db.Ord.{Ord, list_ord, nat_ord, ◌=?◌, ◌≤?◌, ◌<?◌}
use prima_db.Records.{RecordScan, passes, passes_cursor, matches_key}

-- The characters that two texts begin with alike.
unfoldable pub common_chars : List Text → List Text → Text
common_chars (left ∷ lefts) (right ∷ rights) =
    let rest = common_chars lefts rights in if left =? right then left ++ rest else []
common_chars _ _ = []

unfoldable pub common_string_prefix : Text → Text → Text
unfolding common_chars chars
common_string_prefix left right = common_chars (chars left) (chars right)

-- `a.or(b)`
abbrev pub or : Option Text → Option Text → Option Text
or none b = b
or (some a) b = some a

abbrev pub lower_bound : RecordScan → Option Text
lower_bound scan =
    if scan.reverse
    then or scan.start_at scan.start_after
    else or scan.cursor (or scan.start_at scan.start_after)

abbrev pub upper_bound : RecordScan → Option Text
upper_bound scan =
    if scan.reverse
    then or scan.cursor (or scan.end_at scan.end_before)
    else or scan.end_at scan.end_before

abbrev non_empty : Text → Option Text
non_empty [] = none
non_empty (c ∷ text) = some (c ∷ text)

abbrev common_bound : Option Text → Option Text → Option Text
common_bound (some lower) (some upper) = non_empty (common_string_prefix lower upper)
common_bound _ _ = none

unfoldable pub record_scan_key_prefix : RecordScan → Option Text
unfolding common_string_prefix
record_scan_key_prefix scan = elim scan.prefix [
  | some prefix ↦ some prefix
  | none ↦ common_bound (lower_bound scan) (upper_bound scan)
]

abbrev texts : Ord Text
texts = list_ord

starts_with-append :
    (text prefix rest : Text)
    → starts_with text rest ≡ true
    → starts_with (prefix ++ text) (prefix ++ rest) ≡ true
unfolding starts_with
starts_with-append text [] rest h = h
starts_with-append text (c ∷ prefix) rest h = ground (arith, starts_with-append text prefix rest)

starts_with-common_chars :
    (lefts rights : List Text)
    → (starts_with (concat lefts) (common_chars lefts rights) ≡ true)
      × (starts_with (concat rights) (common_chars lefts rights) ≡ true)
unfolding common_chars concat starts_with
starts_with-common_chars [] rights = (refl, refl)
starts_with-common_chars (left ∷ lefts) [] = (refl, refl)
starts_with-common_chars (left ∷ lefts) (right ∷ rights) = elim (Bool-cases (left =? right)) [
  | inl same ↦
      let (in_left, in_right) = starts_with-common_chars lefts rights in
      let rest = common_chars lefts rights in
      let alike : left ≡ right = ground (arith, texts.eq_of_cmp left right) in
      rw same (
        starts_with-append (concat lefts) left rest in_left,
        subst (λ r. starts_with (r ++ concat rights) (left ++ rest) ≡ true) alike
            (starts_with-append (concat rights) left rest in_right),
      )
  | inr other ↦ rw other (refl, refl)
]

-- What lies between two texts begins as both do.
starts_with_between :
    (prefix lower key upper : Text)
    → starts_with lower prefix ≡ true
    → starts_with upper prefix ≡ true
    → (lower ≤? key) ≡ true
    → (key ≤? upper) ≡ true
    → starts_with key prefix ≡ true
unfolding starts_with list_ord nat_ord
starts_with_between [] lower key upper l u a b = refl
starts_with_between (c ∷ prefix) [] key upper l u a b = cc
starts_with_between (c ∷ prefix) (x ∷ lower) key [] l u a b = cc
starts_with_between (c ∷ prefix) (x ∷ lower) [] (z ∷ upper) l u a b = cc
starts_with_between (c ∷ prefix) (x ∷ lower) (y ∷ key) (z ∷ upper) l u a b =
    ground (arith, starts_with_between prefix lower key upper)

starts_with-common_string_prefix :
    (left right : Text)
    → (starts_with left (common_string_prefix left right) ≡ true)
      × (starts_with right (common_string_prefix left right) ≡ true)
unfolding common_string_prefix
starts_with-common_string_prefix left right =
    rw (concat-chars left, concat-chars right) at
      (starts_with-common_chars (chars left) (chars right))

passes-map :
    (bound : Option Text) (f g : Text → Bool)
    → ((b : Text) → f b ≡ true → g b ≡ true)
    → passes bound f ≡ true
    → passes bound g ≡ true
passes-map none f g h p = refl
passes-map (some b) f g h p = h b p

passes-or :
    (a b : Option Text) (f : Text → Bool)
    → passes a f ≡ true
    → passes b f ≡ true
    → passes (or a b) f ≡ true
passes-or none b f p q = q
passes-or (some a) b f p q = p

and-true : (a b : Bool) → (a && b) ≡ true → (a ≡ true) × (b ≡ true)
and-true a b h = ground arith

non_empty-eq : (text : Text) {prefix : Text} → non_empty text ≡ some prefix → text ≡ prefix
non_empty-eq [] h = cc
non_empty-eq (c ∷ text) h = cc

module _ (key : Text) where
  abbrev at_least : Text → Bool
  at_least bound = bound ≤? key

  abbrev at_most : Text → Bool
  at_most bound = key ≤? bound

  above : (b : Text) → not (key <? b) ≡ true → at_least b ≡ true
  above b h = ground (arith, texts.cmp_swap b key)

  strictly_above : (b : Text) → not (key ≤? b) ≡ true → at_least b ≡ true
  strictly_above b h = ground (arith, texts.cmp_swap b key)

  below : (b : Text) → not (b <? key) ≡ true → at_most b ≡ true
  below b h = ground (arith, texts.cmp_swap b key)

  strictly_below : (b : Text) → not (b ≤? key) ≡ true → at_most b ≡ true
  strictly_below b h = ground (arith, texts.cmp_swap b key)

  start_at_least :
      (start_at start_after : Option Text)
      → passes start_at (λ s. not (key <? s)) ≡ true
      → passes start_after (λ s. not (key ≤? s)) ≡ true
      → passes (or start_at start_after) at_least ≡ true
  start_at_least start_at start_after s t =
      passes-or start_at start_after at_least (passes-map start_at _ at_least above s)
        (passes-map start_after _ at_least strictly_above t)

  end_at_most :
      (end_at end_before : Option Text)
      → passes end_at (λ e. not (e <? key)) ≡ true
      → passes end_before (λ e. not (e ≤? key)) ≡ true
      → passes (or end_at end_before) at_most ≡ true
  end_at_most end_at end_before e f =
      passes-or end_at end_before at_most (passes-map end_at _ at_most below e)
        (passes-map end_before _ at_most strictly_below f)

  -- The two bounds of a scan lie around a key that passes them, in either direction.
  bounds_around :
      (reverse : Bool) (cursor starts ends : Option Text)
      → passes cursor (λ c. passes_cursor reverse key c) ≡ true
      → passes starts at_least ≡ true
      → passes ends at_most ≡ true
      → (passes (if reverse then starts else or cursor starts) at_least ≡ true)
        × (passes (if reverse then or cursor ends else ends) at_most ≡ true)
  bounds_around true cursor starts ends c s e =
      (s, passes-or cursor ends at_most (passes-map cursor _ at_most strictly_below c) e)
  bounds_around false cursor starts ends c s e =
      (passes-or cursor starts at_least (passes-map cursor _ at_least strictly_above c) s, e)

  starts_with-common_bound :
      (lower upper : Option Text) {prefix : Text}
      → passes lower at_least ≡ true
      → passes upper at_most ≡ true
      → common_bound lower upper ≡ some prefix
      → starts_with key prefix ≡ true
  starts_with-common_bound none upper l u h = cc
  starts_with-common_bound (some lower) none l u h = cc
  starts_with-common_bound (some lower) (some upper) {prefix} l u h =
      let common = common_string_prefix lower upper in
      let (in_lower, in_upper) = starts_with-common_string_prefix lower upper in
      let same : common ≡ prefix = non_empty-eq common h in
      subst (λ p. starts_with key p ≡ true) same
        (starts_with_between common lower key upper in_lower in_upper l u)

  prefix_of :
      (given lower upper : Option Text) {prefix : Text}
      → passes given (λ p. starts_with key p) ≡ true
      → passes lower at_least ≡ true
      → passes upper at_most ≡ true
      → (elim given [ some prefix ↦ some prefix | none ↦ common_bound lower upper ]) ≡ some prefix
      → starts_with key prefix ≡ true
  prefix_of none lower upper p l u h = starts_with-common_bound lower upper l u h
  prefix_of (some given) lower upper p l u h = subst (λ q. starts_with key q ≡ true) (cc) p

-- A store may narrow a scan to the keys with this prefix: every key that the scan matches has it,
-- whatever the bounds, the cursor and the direction of the scan are.
pub matches_key-record_scan_key_prefix :
    (scan : RecordScan) (key : Text) {prefix : Text}
    → matches_key scan key ≡ true
    → record_scan_key_prefix scan ≡ some prefix
    → starts_with key prefix ≡ true
unfolding matches_key record_scan_key_prefix
matches_key-record_scan_key_prefix scan key {prefix} m h =
    let (p, m₁) = and-true _ _ m in
    let (c, m₂) = and-true _ _ m₁ in
    let (sa, m₃) = and-true _ _ m₂ in
    let (st, m₄) = and-true _ _ m₃ in
    let (ea, eb) = and-true _ _ m₄ in
    let (low, high) =
      bounds_around key scan.reverse scan.cursor (or scan.start_at scan.start_after)
        (or scan.end_at scan.end_before) c (start_at_least key scan.start_at scan.start_after sa st)
        (end_at_most key scan.end_at scan.end_before ea eb) in
    prefix_of key scan.prefix (lower_bound scan) (upper_bound scan) p low high h
