-- ===== src/Security/Policies.antt =====
-- The paths that a certificate's policy matches (auth.rs). A policy is a `serde_json::Value`; here
-- it is what the code asks of one.
use prima_db.Prelude.{
  ℕ, ◌-◌, Bool, true, false, not, ◌&&◌, ◌||◌, ◌==◌, Option, none, some, List, [], ◌∷◌, ◌++◌, any,
  retain, take, drop, length, ltb, if◌then◌else◌,
}
use prima_db.Text.{Text, bytes, starts_with}
use prima_db.Ord.{list_ord, nat_ord, ◌=?◌}
use prima_db.Storage.Keys.{split}

-- A string, an object with the strings under `#` and under `.`, or any other value.
pub data PolicyEntry : Type 0 where
  string : Text → PolicyEntry
  object : Option Text → Option Text → PolicyEntry
  other : PolicyEntry

pub data Policy : Type 0 where
  null : Policy
  array : List PolicyEntry → Policy
  single : PolicyEntry → Policy

-- `text.strip_suffix(character)`
abbrev strip_suffix : ℕ → Text → Option Text
strip_suffix last [] = none
strip_suffix last (c ∷ []) = if c == last then some [] else none
strip_suffix last (c ∷ d ∷ text) = elim (strip_suffix last (d ∷ text)) [
  | none ↦ none
  | some prefix ↦ some (c ∷ prefix)
]

unfoldable pub matches_lex : Text → Text → Bool
unfolding starts_with
matches_lex candidate pattern =
    if pattern =? [] || pattern =? bytes "*" then true else elim (strip_suffix b'*' pattern) [
      | some prefix ↦ starts_with candidate prefix
      | none ↦ candidate =? pattern
    ]

-- `segments.join("/")`
abbrev join : List Text → Text
join [] = []
join (segment ∷ []) = segment
join (segment ∷ next ∷ segments) = segment ++ b'/' ∷ join (next ∷ segments)

abbrev last_segment : List Text → Text
last_segment [] = []
last_segment (segment ∷ []) = segment
last_segment (segment ∷ next ∷ segments) = last_segment (next ∷ segments)

unfoldable pub segments_of : Text → List Text
unfolding split
segments_of path = retain (λ segment. not (segment =? [])) (split b'/' path)

-- The segments between the first and the last.
unfoldable pub soul_path : List Text → Text
soul_path segments =
    if ltb 2 (length segments) then join (take (length segments - 2) (drop 1 segments)) else []

unfoldable pub matches_entry : Text → Text → Text → PolicyEntry → Bool
unfolding matches_lex
matches_entry path soul key (PolicyEntry.string pattern) =
    matches_lex path pattern || (matches_lex soul pattern || matches_lex key pattern)
matches_entry path soul key (PolicyEntry.object (some path_rule) (some field_rule)) =
    matches_lex soul path_rule && matches_lex key field_rule
matches_entry path soul key (PolicyEntry.object (some path_rule) none) =
    matches_lex path path_rule || matches_lex soul path_rule
matches_entry path soul key (PolicyEntry.object none (some field_rule)) = matches_lex key field_rule
matches_entry path soul key (PolicyEntry.object none none) = false
matches_entry path soul key PolicyEntry.other = false

abbrev matches_any : Text → List PolicyEntry → Bool
matches_any path entries =
    let segments = segments_of path in
    any (matches_entry path (soul_path segments) (last_segment segments)) entries

unfoldable pub matches_certificate_path : Text → Policy → Bool
unfolding segments_of soul_path matches_entry
matches_certificate_path path Policy.null = true
matches_certificate_path path (Policy.array entries) = matches_any path entries
matches_certificate_path path (Policy.single entry) = matches_any path (entry ∷ [])
