-- ===== src/Download.antt =====
-- pipelines/pipeline_download/pipeline.go and pipelines/_steps/download/: how a medium is served.
pub mod Stream
pub mod Remote
pub mod Pipeline
pub mod Access
