-- ===== src/Ingestion.antt =====
-- backend/app/services/ingestion.py: the ingestion job of one document.
pub mod Wait
pub mod Sanitize
pub mod Job
pub mod Claims
pub mod Transfers
pub mod Outcome
pub mod Guarantees
pub mod Uploads
pub mod Settles
pub mod Sample
mod Tests
