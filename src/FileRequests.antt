-- ===== src/FileRequests.antt =====
-- The list of file requests of the administration (admin_ui_filerequest.js).
pub mod Download
pub mod Form
pub mod Rows
mod Examples
