-- ===== src/Logs.antt =====
-- The log page of the administration (admin_ui_logs.js).
pub mod Viewer
pub mod Duration
mod Examples
