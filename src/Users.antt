-- ===== src/Users.antt =====
-- The list of users (admin_ui_users.js) except for the permission buttons once they are on the page.
pub mod Row
pub mod Actions
pub mod Bits
mod Examples
