-- ===== src/Fetcher.antt =====
-- rsync-fetcher: the rsync protocol and the transfer plan.
pub mod Stream
pub mod Envelope
pub mod Checksum
pub mod Receiver
pub mod FileList
pub mod Plan
pub mod Stats
pub mod Uploader
pub mod Generator
pub mod Handshake
pub mod Downloader
pub mod Fetch
