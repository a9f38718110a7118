-- ===== src/Topics.antt =====
-- The topics of broker/persistence/topics: the levels of a topic, the two trees over them, and the
-- provider `memTopics`.
pub mod Level
pub mod Levels
pub mod Trie
pub mod Value
pub mod Matching
pub mod Snode
pub mod Rnode
pub mod MemTopics
pub mod Manager
mod Examples
