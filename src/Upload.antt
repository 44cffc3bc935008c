-- ===== src/Upload.antt =====
-- The upload page of a file request (internal/webserver/web/static/js/public_upload.js).
pub mod Retry
pub mod Chunks
pub mod Queue
pub mod Slots
mod Examples
