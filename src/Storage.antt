-- ===== src/Storage.antt =====
-- The codec of the keys under which engine.rs stores nodes and index entries.
pub mod Components
pub mod Sortable
pub mod Keys
