-- ===== src/Files.antt =====
-- internal/files: writing an archive into a directory.
pub mod System
pub mod Matcher
pub mod Writer
pub mod Tar
pub mod Mode
pub mod Content
pub mod Objects
