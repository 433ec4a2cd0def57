-- ===== src/FileService.antt =====
-- The file service: bouncer/src/repo/core/handler/fileservice.
pub mod Blob
pub mod Fs
pub mod Manager
mod Examples
