-- ===== src/Graph.antt =====
-- value.rs and operation.rs: the versioned graph and the operations on it, with the payloads of
-- binary.rs and blob.rs. `J` stands for `serde_json::Value`, which the code only moves and copies.
pub mod Apply
pub mod Cells
pub mod Redelivery
pub mod Registers
pub mod Slots
pub mod Touch
pub mod SetFields
pub mod Schema
pub mod Delivery
pub mod Convergence
pub mod Marks
use prima_db.Prelude.{ℕ, Option, List, []}
use prima_db.Text.{Text}
use prima_db.Ord.{list_ord, nat_ord}
use prima_db.Map
use prima_db.Map.{Map}
use prima_db.Clock.{Revision, VersionMarker}

abbrev pub NodeId : Type 0
NodeId = Text

pub record BinaryBytes : Type 0 where
  pub content : List ℕ

pub record BlobRef : Type 0 where
  pub id : Text
  pub size : ℕ
  pub media_type : Option Text

pub record SetState : Type 0 where
  pub baseline : VersionMarker
  pub members : Map NodeId VersionMarker
  pub removed : Map NodeId VersionMarker

pub data FieldValue (J : Type 0) : Type 0 where
  scalar : J → FieldValue J
  binary : BinaryBytes → FieldValue J
  blob : BlobRef → FieldValue J
  link : NodeId → FieldValue J
  set : SetState → FieldValue J

pub record FieldState (J : Type 0) : Type 0 where
  pub value : FieldValue J
  pub version : VersionMarker

pub record NodeState (J : Type 0) : Type 0 where
  pub id : NodeId
  pub fields : Map Text (FieldState J)
  pub tombstones : Map Text VersionMarker

-- `NodeState::new`
abbrev pub new_node : {J : Type 0} → NodeId → NodeState J
new_node id = record { id = id; fields = Map.empty; tombstones = Map.empty }

pub data OperationValue (J : Type 0) : Type 0 where
  scalar : J → OperationValue J
  binary : BinaryBytes → OperationValue J
  blob : BlobRef → OperationValue J
  link : NodeId → OperationValue J
  set : List NodeId → OperationValue J

pub data OperationAction (J : Type 0) : Type 0 where
  set_field : NodeId → Text → OperationValue J → OperationAction J
  add_set_member : NodeId → Text → NodeId → OperationAction J
  remove_set_member : NodeId → Text → NodeId → OperationAction J
  delete_field : NodeId → Text → OperationAction J

pub record Operation (J : Type 0) : Type 0 where
  pub op_id : Text
  pub author : Text
  pub revision : Revision
  pub action : OperationAction J

abbrev pub zero_marker : VersionMarker
zero_marker = record { revision = record { millis = 0; counter = 0; actor = [] }; op_id = [] }

-- The marker that an operation leaves on what it writes.
abbrev pub marker_of : {J : Type 0} → Operation J → VersionMarker
marker_of op = record { revision = op.revision; op_id = op.op_id }

-- `operation_source_node`
abbrev pub source_node : {J : Type 0} → OperationAction J → NodeId
source_node (set_field node field value) = node
source_node (add_set_member node field member) = node
source_node (remove_set_member node field member) = node
source_node (delete_field node field) = node

abbrev pub touched_field : {J : Type 0} → OperationAction J → Text
touched_field (set_field node field value) = field
touched_field (add_set_member node field member) = field
touched_field (remove_set_member node field member) = field
touched_field (delete_field node field) = field
