-- ===== src/Streams/RoundTrip.antt =====
-- What `send_application_stream` sends, the assembler puts together again.
use prima_db.Prelude.{
  ℕ, zero, suc, ◌+◌, ◌≤◌, ◌<◌, ◌≡◌, refl, ap, ap₂, sym, subst, ◌∙◌, true, false, ◌&&◌, Option, none,
  some, List, [], ◌∷◌, ◌++◌, map, length, ltb, leb, ◌==◌, if◌then◌else◌, arith,
}
use Prim.Native.Nat.{max}
use mathlib.Core.List.{map-append}
use prima_db.Text.{Text}
use prima_db.Text.Chars.{concat}
use prima_db.Ord.{list_ord, nat_ord}
use prima_db.Map
use prima_db.Application.{RouteTransportKind}
use prima_db.Streams.{
  ApplicationStreamFrame, ApplicationStreamEvent, ApplicationStreamSendOptions, Buffers,
}
use prima_db.Streams.Chunks.{chunk_string, concat-chunk_string}
use prima_db.Streams.Assemble.{
  with_close, body_of, finish, try_complete, accept_frame, accept_frames, add_event,
}
use prima_db.Streams.Frames.{open_frame, data_frame, data_frames, close_frame, stream_frames}
use prima_db.Streams.Arrival.{arrived, all_arrived, all_arrived-arrived, joined}
use prima_db.Streams.Delivery.{accept_frames_whole}

-- The chunk under a number, where the first is under the number after `base`.
abbrev chunk_at : ℕ → List Text → ℕ → Text
chunk_at base [] i = []
chunk_at base (chunk ∷ chunks) i = if i == suc base then chunk else chunk_at (suc base) chunks i

-- The chunks are what the function gives from the number after `base` on.
abbrev Reads : (ℕ → Text) → ℕ → List Text → Type 0
Reads f base [] = Unit
Reads f base (chunk ∷ chunks) = (f (suc base) ≡ chunk) × Reads f (suc base) chunks

Reads-congr :
    (f g : ℕ → Text) (base : ℕ) (chunks : List Text)
    → ((i : ℕ) → base < i → f i ≡ g i)
    → Reads g base chunks
    → Reads f base chunks
Reads-congr f g base [] h r = tt
Reads-congr f g base (chunk ∷ chunks) h r = (
  h (suc base) (omega arith) ∙ r.0,
  Reads-congr f g (suc base) chunks (λ i l. h i (omega arith)) r.1,
)

chunk_at-Reads : (base : ℕ) (chunks : List Text) → Reads (chunk_at base chunks) base chunks
chunk_at-Reads base [] = tt
chunk_at-Reads base (chunk ∷ chunks) = (
  ground arith,
  Reads-congr (chunk_at base (chunk ∷ chunks)) (chunk_at (suc base) chunks) (suc base) chunks
      (λ i l. ground arith) (chunk_at-Reads (suc base) chunks),
)

joined-Reads :
    (f : ℕ → Text) (base : ℕ) (chunks : List Text)
    → Reads f base chunks
    → joined f (suc base) (length chunks) ≡ concat chunks
unfolding concat
joined-Reads f base [] r = refl
joined-Reads f base (chunk ∷ chunks) r = ap₂ ◌++◌ r.0 (joined-Reads f (suc base) chunks r.1)

-- The numbers of the chunks.
abbrev numbers : ℕ → ℕ → List ℕ
numbers base zero = []
numbers base (suc count) = suc base ∷ numbers (suc base) count

numbers_last :
    (base count : ℕ) → numbers base (suc count) ≡ numbers base count ++ (base + suc count) ∷ []
numbers_last base zero = ap (λ n. n ∷ []) (omega arith)
numbers_last base (suc count) =
    ap (λ l. suc base ∷ l)
      (numbers_last (suc base) count ∙ ap (λ n. numbers (suc base) count ++ n ∷ []) (omega arith))

arrived-numbers :
    (i base count : ℕ) → arrived i (numbers base count) ≡ (ltb base i && leb i (base + count))
arrived-numbers i base zero = ground arith
arrived-numbers i base (suc count) = ground (arith, arrived-numbers i (suc base) count)

all_arrived_intro :
    (sequence count : ℕ) (order : List ℕ)
    → ((i : ℕ) → sequence ≤ i → i < sequence + count → arrived i order ≡ true)
    → all_arrived sequence count order ≡ true
all_arrived_intro sequence zero order h = refl
all_arrived_intro sequence (suc count) order h = ground (
  arith,
  h sequence (omega arith) (omega arith),
  all_arrived_intro (suc sequence) count order (λ i l g. h i (omega arith) (omega arith)),
)

module _ (fewer : ℕ) where
  all_but_last : all_arrived 1 (suc fewer) (numbers 0 fewer) ≡ false
  all_but_last = ground (
    arith,
    all_arrived-arrived 1 (suc fewer) (suc fewer) (numbers 0 fewer),
    arrived-numbers (suc fewer) 0 fewer,
  )

  with_last : all_arrived 1 (suc fewer) (suc fewer ∷ numbers 0 fewer) ≡ true
  with_last =
      all_arrived_intro 1 (suc fewer) (suc fewer ∷ numbers 0 fewer)
        (λ i l g. ground (arith, arrived-numbers i 0 fewer))

positive : (n : ℕ) → 0 < n → (m : ℕ) × (n ≡ suc m)
positive zero h = absurd (omega arith)
positive (suc m) h = (m, refl)

concat_some : (texts : List Text) (c : ℕ) (text : Text) → concat texts ≡ c ∷ text → 0 < length texts
unfolding concat
concat_some [] c text h = cc
concat_some (first ∷ texts) c text h = omega arith

length-chunk_string : (value : Text) (max_chars : ℕ) → 0 < length (chunk_string value max_chars)
unfolding chunk_string
length-chunk_string [] m = omega arith
length-chunk_string (c ∷ value) m =
    concat_some (chunk_string (c ∷ value) m) c value (concat-chunk_string (c ∷ value) m)

module _ {J : Type 0} (stream_id : Text) (options : ApplicationStreamSendOptions J) where
  data_frames-Reads :
      (f : ℕ → Text) (total base : ℕ) (chunks : List Text)
      → Reads f base chunks
      → data_frames stream_id options total base chunks
        ≡ map (λ i. data_frame stream_id options total i (f i)) (numbers base (length chunks))
  unfolding data_frames
  data_frames-Reads f total base [] r = refl
  data_frames-Reads f total base (chunk ∷ chunks) r =
      ap₂ ◌∷◌ (ap (λ c. data_frame stream_id options total (suc base) c) (sym r.0))
        (data_frames-Reads f total (suc base) chunks r.1)

  data_frames-numbers :
      (chunks : List Text) (fewer : ℕ)
      → length chunks ≡ suc fewer
      → data_frames stream_id options (length chunks) 0 chunks
        ≡ map
            (λ i. data_frame stream_id options (suc fewer) i (chunk_at 0 chunks i))
            (numbers 0 fewer)
          ++ data_frame stream_id options (suc fewer) (suc fewer) (chunk_at 0 chunks (suc fewer))
            ∷ []
  data_frames-numbers chunks fewer count =
      let frame : ℕ → ApplicationStreamFrame J =
        λ i. data_frame stream_id options (suc fewer) i (chunk_at 0 chunks i) in
      data_frames-Reads (chunk_at 0 chunks) (length chunks) 0 chunks (chunk_at-Reads 0 chunks)
      ∙ ap (λ n. map (λ i. data_frame stream_id options n i (chunk_at 0 chunks i)) (numbers 0 n))
          count
      ∙ ap (map frame) (numbers_last 0 fewer ∙ ap (λ n. numbers 0 fewer ++ n ∷ []) (omega arith))
      ∙ map-append frame (numbers 0 fewer) (suc fewer ∷ [])

  -- The event of the stream that these options send.
  abbrev pub sent_event : Text → RouteTransportKind → ApplicationStreamEvent J
  sent_event from transport = record {
    stream_id = stream_id;
    from = from;
    transport = transport;
    namespace = options.namespace;
    protocol = options.protocol;
    topic = options.topic;
    body = options.body;
    metadata = options.metadata;
  }

  module _ (from_str : Text → Option J) (from : Text) (transport : RouteTransportKind) where
    add_event-first :
        (event : Option (ApplicationStreamEvent J))
        (result : Buffers J × List (ApplicationStreamEvent J))
        → (add_event from_str from transport event result).0 ≡ result.0
    add_event-first none result = refl
    add_event-first (some event) (buffers, events) = refl

    close_unknown :
        (buffers : Buffers J) (total : ℕ)
        → Map.get buffers stream_id ≡ none
        → accept_frame from_str from transport buffers (close_frame stream_id options total)
          ≡ (buffers, none)
    unfolding accept_frame try_complete
    close_unknown buffers total unknown =
        let closed = with_close from_str from transport (close_frame stream_id options total) in
        ap
          (λ o.
            try_complete from_str from transport
              (elim o [ none ↦ buffers | some b ↦ Map.insert buffers stream_id (closed b) ])
              stream_id)
          unknown
        ∙ ap
            (λ o. elim o [
              | none ↦ (buffers, none)
              | some b ↦
                  finish from_str from transport buffers stream_id b
                    (body_of from_str from transport b)
            ])
            unknown

    -- A stream that is done does not mind being closed.
    close_frame_late :
        (frames : List (ApplicationStreamFrame J)) (buffers : Buffers J) (total : ℕ)
        → Map.get (accept_frames from_str from transport buffers frames).0 stream_id ≡ none
        → accept_frames from_str from transport buffers
            (frames ++ close_frame stream_id options total ∷ [])
          ≡ accept_frames from_str from transport buffers frames
    unfolding accept_frames
    close_frame_late [] buffers total gone =
        ap (λ r. add_event from_str from transport r.1 (r.0, [])) (close_unknown buffers total gone)
    close_frame_late (frame ∷ frames) buffers total gone =
        let (after, event) = accept_frame from_str from transport buffers frame in
        let rest = accept_frames from_str from transport after frames in
        ap (add_event from_str from transport event) (
          close_frame_late frames after total
            (ap (λ b. Map.get b stream_id) (sym (add_event-first event rest)) ∙ gone))

    -- The frames of a stream, in the order in which they are sent, make its event, once and with
    -- the body that was sent, and leave no buffer behind, if JSON text parses as what it was made of.
    pub accept_frames-stream_frames :
        (to_string : J → Text) (buffers : Buffers J)
        → from_str (to_string options.body) ≡ some options.body
        → let result =
            accept_frames from_str from transport buffers
              (stream_frames stream_id options to_string) in
          (result.1 ≡ sent_event from transport ∷ []) × (Map.get result.0 stream_id ≡ none)
    unfolding stream_frames
    accept_frames-stream_frames to_string buffers parses =
        let max_chars = max options.max_chunk_chars 1 in
        let chunks = chunk_string (to_string options.body) max_chars in
        let (fewer, count) =
          positive (length chunks) (length-chunk_string (to_string options.body) max_chars) in
        let frames = data_frames stream_id options (length chunks) 0 chunks in
        let whole =
          joined-Reads (chunk_at 0 chunks) 0 chunks (chunk_at-Reads 0 chunks)
          ∙ concat-chunk_string (to_string options.body) max_chars in
        let (event, gone) =
          subst
            (λ l.
              ((accept_frames from_str from transport buffers (open_frame stream_id options ∷ l)).1
                ≡ sent_event from transport ∷ [])
              × (Map.get
                    (accept_frames from_str from transport buffers
                      (open_frame stream_id options ∷ l)).0
                    stream_id
                  ≡ none))
            (sym (data_frames-numbers chunks fewer count))
            (accept_frames_whole from_str from transport stream_id options (suc fewer)
              (chunk_at 0 chunks) (omega arith) options.body
              (ap from_str (ap (joined (chunk_at 0 chunks) 1) (sym count) ∙ whole) ∙ parses) buffers
              (numbers 0 fewer) (suc fewer) (all_but_last fewer) (with_last fewer)) in
        let late =
          close_frame_late (open_frame stream_id options ∷ frames) buffers (length chunks) gone in
        (ap (λ r. r.1) late ∙ event, ap (λ r. Map.get r.0 stream_id) late ∙ gone)
