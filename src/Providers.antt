-- ===== src/Providers.antt =====
-- pkg/api/adapters/providers: the clients of the batch providers.
pub mod Exchange
pub mod OpenAi
pub mod Echo
pub mod Requests
pub mod Refusal
