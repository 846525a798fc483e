-- ===== src/Streams/Arrival.antt =====
-- Which data frames of a stream have arrived, and what the assembler keeps of them.
use prima_db.Prelude.{
  ℕ, zero, suc, ◌+◌, ◌≤◌, ◌<◌, ◌≡◌, refl, Bool, true, false, ◌&&◌, ◌||◌, none, some, List, [], ◌∷◌,
  ◌++◌, any, ◌==◌, if◌then◌else◌, arith,
}
use mathlib.Core.List.{reverse_aux}
use prima_db.Text.{Text}
use prima_db.Ord.{list_ord, nat_ord}
use prima_db.Map
use prima_db.Map.{Map}
use prima_db.Map.Laws.{get-insert}
use prima_db.Streams.Assemble.{join_chunks, keep_chunk}

-- The frame with this number is among those that arrived.
abbrev pub arrived : ℕ → List ℕ → Bool
arrived sequence order = any (λ j. j == sequence) order

-- So are all of `count` frames, from this number on.
abbrev pub all_arrived : ℕ → ℕ → List ℕ → Bool
all_arrived sequence zero order = true
all_arrived sequence (suc count) order =
    arrived sequence order && all_arrived (suc sequence) count order

module _ (chunk : ℕ → Text) where
  -- The chunks of `count` frames, from this number on.
  abbrev pub joined : ℕ → ℕ → Text
  joined sequence zero = []
  joined sequence (suc count) = chunk sequence ++ joined (suc sequence) count

  -- The chunks of the frames that arrived, and no others.
  abbrev pub Keeps : List ℕ → Map ℕ Text → Type 0
  Keeps order chunks =
      (j : ℕ) → Map.get chunks j ≡ (if arrived j order then some (chunk j) else none)

  pub join_chunks-Keeps :
      (order : List ℕ) (chunks : Map ℕ Text) (sequence count : ℕ)
      → Keeps order chunks
      → join_chunks chunks sequence count
        ≡ (if all_arrived sequence count order then some (joined sequence count) else none)
  unfolding join_chunks
  join_chunks-Keeps order chunks sequence zero keeps = refl
  join_chunks-Keeps order chunks sequence (suc count) keeps =
      ground (arith, keeps sequence, join_chunks-Keeps order chunks (suc sequence) count keeps)

  pub keep_chunk-Keeps :
      (order : List ℕ) (chunks : Map ℕ Text) (i : ℕ)
      → Keeps order chunks
      → Keeps (i ∷ order) (keep_chunk i (some (chunk i)) chunks)
  unfolding nat_ord
  keep_chunk-Keeps order chunks i keeps j =
      ground (arith, keeps i, keeps j, get-insert chunks i (chunk i) j)

pub all_arrived-arrived :
    (sequence count i : ℕ) (order : List ℕ)
    → all_arrived sequence count order ≡ true
    → sequence ≤ i
    → i < sequence + count
    → arrived i order ≡ true
all_arrived-arrived sequence zero i order h low high = absurd (omega arith)
all_arrived-arrived sequence (suc count) i order h low high =
    ground (arith, all_arrived-arrived (suc sequence) count i order)

pub arrived-reverse_aux :
    (i : ℕ) (later order : List ℕ)
    → arrived i (reverse_aux later order) ≡ (arrived i later || arrived i order)
arrived-reverse_aux i [] order = refl
arrived-reverse_aux i (x ∷ later) order = ground (arith, arrived-reverse_aux i later (x ∷ order))

pub all_arrived_mono :
    (sequence count : ℕ) (order more : List ℕ)
    → ((i : ℕ) → arrived i order ≡ true → arrived i more ≡ true)
    → all_arrived sequence count order ≡ true
    → all_arrived sequence count more ≡ true
all_arrived_mono sequence zero order more h a = refl
all_arrived_mono sequence (suc count) order more h a =
    ground (arith, h sequence, all_arrived_mono (suc sequence) count order more h)

pub not_all_arrived :
    (total : ℕ) (later order : List ℕ)
    → all_arrived 1 total (reverse_aux later order) ≡ false
    → all_arrived 1 total order ≡ false
not_all_arrived total later order h = ground (
  arith,
  all_arrived_mono 1 total order (reverse_aux later order)
      (λ i a. ground (arith, arrived-reverse_aux i later order)),
)

pub all_arrived_reverse :
    (total : ℕ) (later order : List ℕ)
    → ((i : ℕ) → arrived i later ≡ arrived i order)
    → all_arrived 1 total later ≡ all_arrived 1 total order
all_arrived_reverse total later order h = ground (
  arith,
  all_arrived_mono 1 total later order (λ i a. ground (arith, h i)),
  all_arrived_mono 1 total order later (λ i a. ground (arith, h i)),
)
