-- ===== src/Merkle.antt =====
-- internal/merkle: the transparency log's tree and its checkpoints.
pub mod Tree
pub mod Stored
pub mod Checkpoint
