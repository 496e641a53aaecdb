-- ===== src/Chat.antt =====
-- homework2: the chat server, from the text it reads to its main loop.
pub mod Result
pub mod Filter
pub mod State
pub mod Account
pub mod Room
pub mod Message
pub mod Dispatch
pub mod Loop
pub mod Invariant
pub mod Delivery
pub mod Sessions
pub mod Listing
pub mod Crash
mod Tests
