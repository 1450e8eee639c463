-- ===== src/Uploads.antt =====
-- backend/app/routes/uploads.py: the route that takes a file, and the one that tells how its ingestion
-- goes. backend/app/file_types.py: the types a file may have.
pub mod Name
pub mod Clean
pub mod Types
pub mod Magic
pub mod Receive
pub mod Route
pub mod Leaks
pub mod Settles
pub mod Status
pub mod Answers
mod Tests
