-- ===== src/Gateway.antt =====
-- rsync-gateway: resolving a request against a revision, rendering, and the active revision.
pub mod Entries
pub mod Realpath
pub mod Keys
pub mod Active
pub mod Listing
pub mod Cache
pub mod Navbar
pub mod Config
