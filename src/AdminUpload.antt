-- ===== src/AdminUpload.antt =====
-- The upload page of the administration (admin_ui_upload.js).
pub mod Table
pub mod Form
pub mod Edit
pub mod Events
pub mod Row
pub mod Status
mod Examples
