-- ===== src/Streams/Frames.antt =====
-- The frames of `send_application_stream` in overlay.rs, which are sent one after the other.
-- `to_string` is `serde_json::to_string`.
use prima_db.Prelude.{
  ℕ, suc, ◌+◌, Bool, false, true, Option, none, some, List, [], ◌∷◌, ◌++◌, length, ◌==◌,
}
use Prim.Native.Nat.{max}
use prima_db.Text.{Text, bytes}
use prima_db.Ord.{list_ord, nat_ord}
use prima_db.Clock.{hex}
use prima_db.Streams.{
  ApplicationStreamFrameKind, ApplicationStreamFrame, ApplicationStreamSendOptions,
}
use prima_db.Streams.ApplicationStreamFrameKind.{opens, data_chunk, closes}
use prima_db.Streams.Chunks.{chunk_string}

-- The wall clock's reading is an argument.
unfoldable pub stream_id_text : Text → ℕ → Text
unfolding hex
stream_id_text peer_id now = peer_id ++ (bytes "/stream/" ++ hex now)

module _ {J : Type 0} (stream_id : Text) (options : ApplicationStreamSendOptions J) where
  abbrev pub frame_of :
      ℕ → ApplicationStreamFrameKind → Option Text → Bool → ApplicationStreamFrame J
  frame_of sequence kind chunk final_chunk = record {
    stream_id = stream_id;
    sequence = sequence;
    kind = kind;
    namespace = options.namespace;
    protocol = options.protocol;
    topic = options.topic;
    chunk = chunk;
    final_chunk = final_chunk;
    ack_sequence = none;
    error = none;
    metadata = options.metadata;
  }

  abbrev pub open_frame : ApplicationStreamFrame J
  open_frame = frame_of 0 opens none false

  abbrev pub data_frame : ℕ → ℕ → Text → ApplicationStreamFrame J
  data_frame total sequence chunk = frame_of sequence data_chunk (some chunk) (sequence == total)

  unfoldable pub data_frames : ℕ → ℕ → List Text → List (ApplicationStreamFrame J)
  data_frames total index [] = []
  data_frames total index (chunk ∷ chunks) =
      data_frame total (suc index) chunk ∷ data_frames total (suc index) chunks

  abbrev pub close_frame : ℕ → ApplicationStreamFrame J
  close_frame total = frame_of (total + 1) closes none true

  -- The frames that `send_application_stream` sends; there is at least one chunk.
  unfoldable pub stream_frames : (J → Text) → List (ApplicationStreamFrame J)
  unfolding data_frames chunk_string
  stream_frames to_string =
      let chunks = chunk_string (to_string options.body) (max options.max_chunk_chars 1) in
      open_frame ∷ (data_frames (length chunks) 0 chunks ++ close_frame (length chunks) ∷ [])
