-- ===== src/Streams/Delivery.antt =====
-- A stream is delivered whole, whatever the order in which its data frames arrive.
use prima_db.Prelude.{
  ℕ, ◌<◌, ◌≡◌, refl, ap, sym, subst, ◌∙◌, true, false, Option, none, some, List, [], ◌∷◌, ◌++◌, map,
  unwrap_or, if◌then◌else◌, arith,
}
use mathlib.Core.List.{reverse_aux}
use prima_db.Text.{Text}
use prima_db.Ord.{list_ord, nat_ord}
use prima_db.Map
use prima_db.Map.{Map}
use prima_db.Map.Laws.{get-insert_self, get-remove_self, get-empty}
use prima_db.Application.{RouteTransportKind}
use prima_db.Streams.{
  ApplicationStreamFrame, ApplicationStreamEvent, ApplicationStreamBuffer,
  ApplicationStreamSendOptions, Buffers,
}
use prima_db.Streams.Assemble.{
  new_buffer, event_of, body_of, with_data, try_complete, accept_frame, accept_frames, finish,
  add_event,
}
use prima_db.Streams.Arrival.{
  arrived, all_arrived, joined, Keeps, join_chunks-Keeps, keep_chunk-Keeps, all_arrived-arrived,
  arrived-reverse_aux, not_all_arrived, all_arrived_reverse,
}
use prima_db.Streams.Frames.{open_frame, data_frame}

module _ {J : Type 0} (from_str : Text → Option J) (from : Text) (transport : RouteTransportKind)
    (stream_id : Text) (options : ApplicationStreamSendOptions J) (total : ℕ) (chunk : ℕ → Text)
    (some_chunks : 0 < total) (body : J)
    (parses : from_str (joined chunk 1 total) ≡ some body) where
  abbrev frame : ℕ → ApplicationStreamFrame J
  frame i = data_frame stream_id options total i (chunk i)

  -- The event of the whole stream.
  abbrev pub whole_event : ApplicationStreamEvent J
  whole_event = record {
    stream_id = stream_id;
    from = from;
    transport = transport;
    namespace = options.namespace;
    protocol = options.protocol;
    topic = options.topic;
    body = body;
    metadata = options.metadata;
  }

  -- The buffer of a stream of which these frames arrived.
  record Holds (order : List ℕ) (buffer : ApplicationStreamBuffer J) : Type 0 where
    from_sender : buffer.from ≡ from
    by_transport : buffer.transport ≡ transport
    same_namespace : buffer.namespace ≡ options.namespace
    same_protocol : buffer.protocol ≡ options.protocol
    same_topic : buffer.topic ≡ options.topic
    same_metadata : buffer.metadata ≡ options.metadata
    keeps : Keeps chunk order buffer.chunks
    last_known : buffer.final_sequence ≡ (if arrived total order then some total else none)

  with_data-Holds :
      (order : List ℕ) (buffer : ApplicationStreamBuffer J) (i : ℕ)
      → Holds order buffer
      → Holds (i ∷ order) (with_data from_str from transport (frame i) buffer)
  with_data-Holds order buffer i h = record {
    from_sender = h.from_sender;
    by_transport = h.by_transport;
    same_namespace = h.same_namespace;
    same_protocol = h.same_protocol;
    same_topic = h.same_topic;
    same_metadata = h.same_metadata;
    keeps = keep_chunk-Keeps chunk order buffer.chunks i h.keeps;
    last_known = ground (arith, h.last_known);
  }

  body_of-Holds :
      (order : List ℕ) (buffer : ApplicationStreamBuffer J)
      → Holds order buffer
      → body_of from_str from transport buffer
        ≡ (if all_arrived 1 total order then some body else none)
  body_of-Holds order buffer h = ground (
    arith,
    h.last_known,
    join_chunks-Keeps chunk order buffer.chunks 1 total h.keeps,
    all_arrived-arrived 1 total total order,
  )

  event_of-Holds :
      (order : List ℕ) (buffer : ApplicationStreamBuffer J)
      → Holds order buffer
      → event_of from_str from transport stream_id buffer body ≡ whole_event
  event_of-Holds order buffer h = ground (
    arith, h.from_sender, h.by_transport, h.same_namespace, h.same_protocol, h.same_topic,
    h.same_metadata,
  )

  -- The assembler has a buffer for the stream, of which these frames arrived.
  abbrev HoldsIn : List ℕ → Buffers J → Type 0
  HoldsIn order buffers =
      (buffer : ApplicationStreamBuffer J) × (Map.get buffers stream_id ≡ some buffer)
      × Holds order buffer

  open_frame-HoldsIn :
      (buffers : Buffers J)
      → HoldsIn [] (accept_frame from_str from transport buffers (open_frame stream_id options)).0
  unfolding accept_frame
  open_frame-HoldsIn buffers =
      let buffer = new_buffer from_str from transport (open_frame stream_id options) in
      (
        buffer,
        get-insert_self buffers stream_id buffer,
        record {
          from_sender = refl;
          by_transport = refl;
          same_namespace = refl;
          same_protocol = refl;
          same_topic = refl;
          same_metadata = refl;
          keeps = λ j. get-empty j;
          last_known = refl;
        },
      )

  abbrev accept_data : Buffers J → ℕ → Buffers J × Option (ApplicationStreamEvent J)
  accept_data buffers i = accept_frame from_str from transport buffers (frame i)

  abbrev filled : ApplicationStreamBuffer J → ℕ → ApplicationStreamBuffer J
  filled buffer i = with_data from_str from transport (frame i) buffer

  accept_data-eq-finish :
      (order : List ℕ) (buffers : Buffers J) (i : ℕ) (buffer : ApplicationStreamBuffer J)
      → Map.get buffers stream_id ≡ some buffer
      → Holds order buffer
      → accept_data buffers i
        ≡ finish from_str from transport
            (Map.insert buffers stream_id (filled buffer i))
            stream_id
            (filled buffer i)
            (if all_arrived 1 total (i ∷ order) then some body else none)
  unfolding accept_frame try_complete
  accept_data-eq-finish order buffers i buffer known holds =
      let first = new_buffer from_str from transport (frame i) in
      let inserted = Map.insert buffers stream_id (filled buffer i) in
      ap
        (λ o.
          try_complete from_str from transport
            (Map.insert buffers stream_id (filled (unwrap_or o first) i)) stream_id)
        known
      ∙ ap
          (λ o. elim o [
            | none ↦ (inserted, none)
            | some b ↦
                finish from_str from transport inserted stream_id b
                  (body_of from_str from transport b)
          ])
          (get-insert_self buffers stream_id (filled buffer i))
      ∙ ap (finish from_str from transport inserted stream_id (filled buffer i))
          (body_of-Holds (i ∷ order) (filled buffer i) (with_data-Holds order buffer i holds))

  accept_data-HoldsIn :
      (order : List ℕ) (buffers : Buffers J) (i : ℕ)
      → HoldsIn order buffers
      → all_arrived 1 total (i ∷ order) ≡ false
      → HoldsIn (i ∷ order) (accept_data buffers i).0 × ((accept_data buffers i).1 ≡ none)
  accept_data-HoldsIn order buffers i (buffer, known, holds) missing =
      let inserted = Map.insert buffers stream_id (filled buffer i) in
      let path : accept_data buffers i ≡ (inserted, none) =
        accept_data-eq-finish order buffers i buffer known holds
        ∙ ap
            (λ b.
              finish from_str from transport inserted stream_id (filled buffer i)
                (if b then some body else none))
            missing in
      subst (λ r. HoldsIn (i ∷ order) r.0 × (r.1 ≡ none)) (sym path)
        (
          (
            filled buffer i,
            get-insert_self buffers stream_id (filled buffer i),
            with_data-Holds order buffer i holds,
          ),
          refl,
        )

  accept_last :
      (order : List ℕ) (buffers : Buffers J) (i : ℕ)
      → HoldsIn order buffers
      → all_arrived 1 total (i ∷ order) ≡ true
      → ((accept_data buffers i).1 ≡ some whole_event)
        × (Map.get (accept_data buffers i).0 stream_id ≡ none)
  accept_last order buffers i (buffer, known, holds) complete =
      let inserted = Map.insert buffers stream_id (filled buffer i) in
      let event = event_of from_str from transport stream_id (filled buffer i) body in
      let path : accept_data buffers i ≡ (Map.remove inserted stream_id, some event) =
        accept_data-eq-finish order buffers i buffer known holds
        ∙ ap
            (λ b.
              finish from_str from transport inserted stream_id (filled buffer i)
                (if b then some body else none))
            complete in
      subst (λ r. (r.1 ≡ some whole_event) × (Map.get r.0 stream_id ≡ none)) (sym path)
        (
          ap some
              (event_of-Holds (i ∷ order) (filled buffer i) (with_data-Holds order buffer i holds)),
          get-remove_self inserted stream_id,
        )

  abbrev Delivered : Buffers J × List (ApplicationStreamEvent J) → Type 0
  Delivered result = (result.1 ≡ whole_event ∷ []) × (Map.get result.0 stream_id ≡ none)

  accept_frames-Delivered :
      (later order : List ℕ) (buffers : Buffers J) (last : ℕ)
      → HoldsIn order buffers
      → all_arrived 1 total (reverse_aux later order) ≡ false
      → all_arrived 1 total (last ∷ reverse_aux later order) ≡ true
      → Delivered
          (accept_frames from_str from transport buffers (map frame later ++ frame last ∷ []))
  unfolding accept_frames
  accept_frames-Delivered [] order buffers last h missing complete =
      let (event, gone) = accept_last order buffers last h complete in
      subst
        (λ e. Delivered (add_event from_str from transport e ((accept_data buffers last).0, [])))
        (sym event) (refl, gone)
  accept_frames-Delivered (i ∷ later) order buffers last h missing complete =
      let (h', no_event) =
        accept_data-HoldsIn order buffers i h (not_all_arrived total later (i ∷ order) missing) in
      let rest =
        accept_frames from_str from transport (accept_data buffers i).0
          (map frame later ++ frame last ∷ []) in
      subst (λ e. Delivered (add_event from_str from transport e rest)) (sym no_event)
        (accept_frames-Delivered later (i ∷ order) (accept_data buffers i).0 last h' missing
          complete)

  -- A stream is opened, and its data frames come in any order, some of them several times, up to the
  -- one with which all have come, which is the last of the sequence. Then the event comes with that
  -- frame, once and whole, and the buffer is freed, whatever the assembler held before, if the chunks
  -- one after the other parse as the body. Frames that come again later are not covered.
  pub accept_frames_whole :
      (buffers : Buffers J) (order : List ℕ) (last : ℕ)
      → all_arrived 1 total order ≡ false
      → all_arrived 1 total (last ∷ order) ≡ true
      → ((accept_frames from_str from transport buffers
            (open_frame stream_id options ∷ (map frame order ++ frame last ∷ []))).1
          ≡ whole_event ∷ [])
        × (Map.get
              (accept_frames from_str from transport buffers
                (open_frame stream_id options ∷ (map frame order ++ frame last ∷ []))).0
              stream_id
            ≡ none)
  unfolding accept_frames accept_frame
  accept_frames_whole buffers order last missing complete =
      let opened = accept_frame from_str from transport buffers (open_frame stream_id options) in
      let same : (i : ℕ) → arrived i (reverse_aux order []) ≡ arrived i order =
        λ i. ground (arith, arrived-reverse_aux i order []) in
      accept_frames-Delivered order [] opened.0 last (open_frame-HoldsIn buffers)
        (all_arrived_reverse total (reverse_aux order []) order same ∙ missing)
        (all_arrived_reverse total (last ∷ reverse_aux order []) (last ∷ order)
            (λ i. ground (arith, same i))
          ∙ complete)
