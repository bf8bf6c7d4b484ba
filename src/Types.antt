-- ===== src/Types.antt =====
-- The conversation data model: include/forgeant/types and src/types.
pub mod Role
pub mod Content
pub mod Message
pub mod Conversation
pub mod RoundTrip
pub mod Texts
pub mod Reading
pub mod Persisted
