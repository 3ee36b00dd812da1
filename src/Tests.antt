-- ===== src/Tests.antt =====
-- Runs of the models on small inputs, and a concrete case of each theorem that has hypotheses.
mod Sqrt
mod Stores
mod Streams
mod Paths
mod Plans
mod Caches
mod Uploads
mod Systems
mod Pages
mod Frames
mod Requests
mod Handshakes
