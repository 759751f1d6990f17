-- ===== src/Knowledge.antt =====
-- internal/knowledge: the deterministic memory that citations are verified against.
pub mod Platform
pub mod Keys
pub mod Similarity
pub mod Store
pub mod Registry
pub mod GraphStore
pub mod Graph
