-- ===== src/Client.antt =====
-- pkg/client: the command line's view of the server, and the files it keeps beside a directory.
pub mod Disk
pub mod Dir
pub mod State
pub mod Tracker
pub mod Group
pub mod Rebuild
pub mod Cache
pub mod Upload
pub mod Update
pub mod Requests
