-- ===== src/Streams/Assemble.antt =====
-- `ApplicationStreamAssembler` of overlay.rs. `from_str` is `serde_json::from_str`; of the event
-- that brings a frame the code reads the sender and the transport.
use prima_db.Prelude.{
  ℕ, zero, suc, ◌-◌, Option, none, some, List, [], ◌∷◌, ◌++◌, ltb, unwrap_or, not, ◌||◌,
  if◌then◌else◌,
}
use prima_db.Text.{Text, bytes}
use prima_db.Ord.{list_ord, nat_ord, ◌=?◌}
use prima_db.Map
use prima_db.Map.{Map}
use prima_db.Application.{RouteTransportKind, ApplicationRouteMessage}
use prima_db.Streams.{
  ApplicationStreamFrameKind, ApplicationStreamFrame, ApplicationStreamEvent,
  ApplicationStreamBuffer, Buffers,
}
use prima_db.Streams.ApplicationStreamFrameKind.{opens, data_chunk, ack, nack, closes, fails}

-- The chunks from a sequence number on, `count` of them, or none where one of them is missing.
unfoldable pub join_chunks : Map ℕ Text → ℕ → ℕ → Option Text
join_chunks chunks sequence zero = some []
join_chunks chunks sequence (suc count) =
    let later = join_chunks chunks (suc sequence) count in
    elim (Map.get chunks sequence) [
      | none ↦ none
      | some chunk ↦ elim later [ none ↦ none | some rest ↦ some (chunk ++ rest) ]
    ]

-- `buffer.chunks.entry(sequence).or_insert(chunk)`
abbrev pub keep_chunk : ℕ → Option Text → Map ℕ Text → Map ℕ Text
keep_chunk sequence none chunks = chunks
keep_chunk sequence (some chunk) chunks = elim (Map.get chunks sequence) [
  | none ↦ Map.insert chunks sequence chunk
  | some _ ↦ chunks
]

module _ {J : Type 0} (from_str : Text → Option J) (from : Text)
    (transport : RouteTransportKind) where
  abbrev pub new_buffer : ApplicationStreamFrame J → ApplicationStreamBuffer J
  new_buffer frame = record {
    from = from;
    transport = transport;
    namespace = frame.namespace;
    protocol = frame.protocol;
    topic = frame.topic;
    metadata = frame.metadata;
    chunks = Map.empty;
    final_sequence = none;
  }

  abbrev pub event_of : Text → ApplicationStreamBuffer J → J → ApplicationStreamEvent J
  event_of stream_id buffer body = record {
    stream_id = stream_id;
    from = buffer.from;
    transport = buffer.transport;
    namespace = buffer.namespace;
    protocol = buffer.protocol;
    topic = buffer.topic;
    body = body;
    metadata = buffer.metadata;
  }

  -- The body of a buffer that has all its chunks, where they parse.
  abbrev pub body_of : ApplicationStreamBuffer J → Option J
  body_of buffer = elim buffer.final_sequence [
    | none ↦ none
    | some last ↦ elim (join_chunks buffer.chunks 1 last) [
      | none ↦ none
      | some joined ↦ from_str joined
    ]
  ]

  -- What the assembler holds after, and the event that a complete stream makes.
  abbrev pub Accepted : Type 0
  Accepted = Buffers J × Option (ApplicationStreamEvent J)

  abbrev pub finish : Buffers J → Text → ApplicationStreamBuffer J → Option J → Accepted
  finish buffers stream_id buffer none = (buffers, none)
  finish buffers stream_id buffer (some body) =
      (Map.remove buffers stream_id, some (event_of stream_id buffer body))

  unfoldable pub try_complete : Buffers J → Text → Accepted
  unfolding join_chunks
  try_complete buffers stream_id = elim (Map.get buffers stream_id) [
    | none ↦ (buffers, none)
    | some buffer ↦ finish buffers stream_id buffer (body_of buffer)
  ]

  abbrev pub with_data :
      ApplicationStreamFrame J → ApplicationStreamBuffer J → ApplicationStreamBuffer J
  with_data frame buffer = record buffer {
    chunks = keep_chunk frame.sequence frame.chunk buffer.chunks;
    final_sequence = if frame.final_chunk then some frame.sequence else buffer.final_sequence;
  }

  abbrev pub with_close :
      ApplicationStreamFrame J → ApplicationStreamBuffer J → ApplicationStreamBuffer J
  with_close frame buffer = record buffer {
    final_sequence = elim buffer.final_sequence [
      | none ↦ if ltb 0 frame.sequence then some (frame.sequence - 1) else none
      | some last ↦ some last
    ];
  }

  abbrev close_buffer : ApplicationStreamFrame J → Buffers J → Buffers J
  close_buffer frame buffers = elim (Map.get buffers frame.stream_id) [
    | none ↦ buffers
    | some buffer ↦ Map.insert buffers frame.stream_id (with_close frame buffer)
  ]

  abbrev by_kind : ApplicationStreamFrameKind → Buffers J → ApplicationStreamFrame J → Accepted
  by_kind opens buffers frame = (Map.insert buffers frame.stream_id (new_buffer frame), none)
  by_kind data_chunk buffers frame =
      let buffer = unwrap_or (Map.get buffers frame.stream_id) (new_buffer frame) in
      try_complete (Map.insert buffers frame.stream_id (with_data frame buffer)) frame.stream_id
  by_kind closes buffers frame = try_complete (close_buffer frame buffers) frame.stream_id
  by_kind ack buffers frame = (buffers, none)
  by_kind nack buffers frame = (buffers, none)
  by_kind fails buffers frame = (buffers, none)

  unfoldable pub accept_frame : Buffers J → ApplicationStreamFrame J → Accepted
  unfolding try_complete
  accept_frame buffers frame = by_kind frame.kind buffers frame

  -- The message of the event; a message of another protocol, and one whose body is no frame, are
  -- passed over.
  unfoldable pub accept_event :
      (J → Option (ApplicationStreamFrame J)) → Buffers J → ApplicationRouteMessage J → Accepted
  unfolding accept_frame
  accept_event from_value buffers message =
      if not (message.namespace =? bytes "primadb.applicationStream")
        || not (message.protocol =? bytes "primadb.applicationStream.v1")
      then (buffers, none)
      else elim (from_value message.body) [
        | none ↦ (buffers, none)
        | some frame ↦ accept_frame buffers frame
      ]

  abbrev pub add_event :
      Option (ApplicationStreamEvent J)
      → Buffers J × List (ApplicationStreamEvent J)
      → Buffers J × List (ApplicationStreamEvent J)
  add_event none result = result
  add_event (some event) (buffers, events) = (buffers, event ∷ events)

  -- The frames of a list one after the other, and the events of those that complete a stream.
  unfoldable pub accept_frames :
      Buffers J → List (ApplicationStreamFrame J) → Buffers J × List (ApplicationStreamEvent J)
  unfolding accept_frame
  accept_frames buffers [] = (buffers, [])
  accept_frames buffers (frame ∷ frames) =
      let (after, event) = accept_frame buffers frame in
      add_event event (accept_frames after frames)
