-- ===== src/Client.antt =====
-- client/ and cmd/send/: the command line client.
pub mod Args
pub mod Resumable
pub mod Pending
pub mod Upload
pub mod History
pub mod Disk
pub mod Download
pub mod Toy
