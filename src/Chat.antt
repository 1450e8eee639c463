-- ===== src/Chat.antt =====
-- backend/app/routes/chat.py: the stream that answers a chat request.
pub mod Usage
pub mod Requests
pub mod History
pub mod Sessions
pub mod Filters
pub mod Stream
pub mod Emitted
pub mod Loop
pub mod Contract
mod Tests
mod Trials
