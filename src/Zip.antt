-- ===== src/Zip.antt =====
-- Client-side zipping of uploads, the core layer of
-- internal/webserver/web/static/js/admin_ui_zip.js.
pub mod Names
pub mod Items
pub mod Walk
pub mod Dialog
pub mod Drop
mod Examples
