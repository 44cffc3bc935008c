-- ===== src/E2e.antt =====
-- End-to-end encryption in the browser (end2end_admin.js, end2end_download.js). The encryption
-- itself is the compiled Go module, which the definitions take as an argument.
pub mod Chunks
pub mod Sent
pub mod Whole
pub mod Session
pub mod Decrypt
pub mod Link
pub mod Locked
mod Examples
