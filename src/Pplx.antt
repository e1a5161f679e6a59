-- ===== src/Pplx.antt =====
-- internal/pplx: the Perplexity client.
pub mod Frame
pub mod Sse
pub mod Conversation
pub mod Ask
pub mod Bridge
pub mod Usage
pub mod Replies
pub mod Auth
pub mod Token
pub mod Probe
