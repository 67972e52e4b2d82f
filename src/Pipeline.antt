-- ===== src/Pipeline.antt =====
-- src/pipeline: the steps of the pipeline.
pub mod Deletion
