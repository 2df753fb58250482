-- ===== src/Upload.antt =====
-- The upload pipeline: what a client sends becomes a row of `media` and an object in a datastore.
pub mod Steps
pub mod Pipeline
pub mod Ids
pub mod Frame
pub mod Rows
pub mod Accepted
pub mod Put
pub mod Create
pub mod Whole
