-- ===== src/Voice.antt =====
-- The voice conversations, Backend/src/voice.
pub mod Conversation
pub mod Sessions
pub mod Deletions
pub mod Quota
pub mod LanguageCache
