-- ===== src/Tests/Streams.antt =====
-- The theorems on streams and underlays at concrete inputs. Bodies are numbers.
use prima_db.Prelude.{
  ℕ, zero, suc, ◌≡◌, refl, Option, none, some, [], ◌∷◌, ◌++◌, length, map, if◌then◌else◌, arith,
}
use prima_db.Text.{Text, bytes}
use prima_db.Ord.{list_ord, nat_ord, ◌=?◌}
use prima_db.Map
use prima_db.Map.Entries.{get_in, insert_in, remove_in}
use prima_db.Router.{RouteTarget}
use prima_db.Application.{RouteTransportKind}
use prima_db.Streams.{ApplicationStreamSendOptions, ApplicationStreamFrame}
use prima_db.Streams.Assemble.{accept_frames, accept_frame, try_complete, join_chunks}
use prima_db.Streams.Frames.{open_frame, data_frame, stream_frames}
use prima_db.Streams.Delivery.{whole_event, accept_frames_whole}
use prima_db.Streams.RoundTrip.{sent_event, accept_frames-stream_frames}
use prima_db.Tests.Data.{alice}

abbrev options : ApplicationStreamSendOptions ℕ
options = record {
  namespace = bytes "chat";
  protocol = bytes "v1";
  topic = none;
  body = 123;
  metadata = Map.empty;
  target = RouteTarget.broadcast;
  max_chunk_chars = 2;
}

abbrev stream_id : Text
stream_id = bytes "alice/stream/1"

-- A parser of one text.
abbrev parse : Text → Option ℕ
parse text = if text =? bytes "123" then some 123 else none

abbrev print : ℕ → Text
print body = bytes "123"

parses_back : parse (print 123) ≡ some 123
unfolding list_ord nat_ord
parses_back = refl

accept_frames-stream_frames_example :
    let result =
      accept_frames parse alice RouteTransportKind.web_rtc Map.empty
        (stream_frames stream_id options print) in
    (result.1 ≡ sent_event stream_id options alice RouteTransportKind.web_rtc ∷ [])
    × (Map.get result.0 stream_id ≡ none)
accept_frames-stream_frames_example =
    accept_frames-stream_frames stream_id options parse alice RouteTransportKind.web_rtc print
      Map.empty parses_back

-- The chunks of the frames 1 and 2.
abbrev chunk : ℕ → Text
chunk (suc zero) = bytes "12"
chunk _ = bytes "3"

-- The second frame arrives twice before the first.
accept_frames_whole_example :
    let frame : ℕ → ApplicationStreamFrame ℕ = λ i. data_frame stream_id options 2 i (chunk i) in
    let result =
      accept_frames parse alice RouteTransportKind.web_rtc Map.empty
        (open_frame stream_id options ∷ (map frame (2 ∷ 2 ∷ []) ++ frame 1 ∷ [])) in
    (result.1
      ≡ whole_event parse alice RouteTransportKind.web_rtc stream_id options 2 chunk
          (omega arith)
          123
          parses_back
        ∷ [])
    × (Map.get result.0 stream_id ≡ none)
unfolding list_ord nat_ord
accept_frames_whole_example =
    accept_frames_whole parse alice RouteTransportKind.web_rtc stream_id options 2 chunk
      (omega arith) 123 parses_back Map.empty (2 ∷ 2 ∷ []) 1 refl refl

-- A data frame that arrives before the frame that opens the stream is lost.
late_open :
    (accept_frames parse alice RouteTransportKind.web_rtc Map.empty (
      data_frame stream_id options 2 1 (chunk 1)
      ∷ open_frame stream_id options
      ∷ data_frame stream_id options 2 2 (chunk 2)
      ∷ [])).1
    ≡ []
unfolding accept_frames accept_frame try_complete join_chunks Map.get Map.insert get_in insert_in
    list_ord nat_ord
late_open = refl

-- The only data frame of a stream makes the event again when it comes again.
delivered_twice :
    let result = accept_frames parse alice RouteTransportKind.web_rtc Map.empty (
      open_frame stream_id options
      ∷ data_frame stream_id options 1 1 (bytes "123")
      ∷ data_frame stream_id options 1 1 (bytes "123")
      ∷ []) in
    length result.1 ≡ 2
unfolding accept_frames accept_frame try_complete join_chunks Map.get Map.insert Map.remove get_in
    insert_in remove_in list_ord nat_ord
delivered_twice = refl
