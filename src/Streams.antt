-- ===== src/Streams.antt =====
-- overlay.rs: the streams by which a body too large for one route is sent in chunks. `J` stands for
-- `serde_json::Value`.
pub mod Chunks
pub mod Assemble
pub mod Frames
pub mod Arrival
pub mod Delivery
pub mod RoundTrip
use prima_db.Prelude.{ℕ, Bool, Option, List}
use prima_db.Text.{Text}
use prima_db.Ord.{list_ord, nat_ord}
use prima_db.Map.{Map}
use prima_db.Router.{RouteTarget}
use prima_db.Application.{RouteTransportKind}

pub data ApplicationStreamFrameKind : Type 0 where
  opens data_chunk ack nack closes fails : ApplicationStreamFrameKind

pub record ApplicationStreamFrame (J : Type 0) : Type 0 where
  pub stream_id : Text
  pub sequence : ℕ
  pub kind : ApplicationStreamFrameKind
  pub namespace : Text
  pub protocol : Text
  pub topic : Option Text
  pub chunk : Option Text
  pub final_chunk : Bool
  pub ack_sequence : Option ℕ
  pub error : Option Text
  pub metadata : Map Text J

pub record ApplicationStreamEvent (J : Type 0) : Type 0 where
  pub stream_id : Text
  pub from : Text
  pub transport : RouteTransportKind
  pub namespace : Text
  pub protocol : Text
  pub topic : Option Text
  pub body : J
  pub metadata : Map Text J

pub record ApplicationStreamSendOptions (J : Type 0) : Type 0 where
  pub namespace : Text
  pub protocol : Text
  pub topic : Option Text
  pub body : J
  pub metadata : Map Text J
  pub target : RouteTarget
  pub max_chunk_chars : ℕ

pub record ApplicationStreamBuffer (J : Type 0) : Type 0 where
  pub from : Text
  pub transport : RouteTransportKind
  pub namespace : Text
  pub protocol : Text
  pub topic : Option Text
  pub metadata : Map Text J
  pub chunks : Map ℕ Text
  pub final_sequence : Option ℕ

-- The state of `ApplicationStreamAssembler`.
abbrev pub Buffers : Type 0 → Type 0
Buffers J = Map Text (ApplicationStreamBuffer J)
