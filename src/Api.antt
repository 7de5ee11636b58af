-- ===== src/Api.antt =====
-- pkg/api: the gRPC endpoints.
pub mod Fs
pub mod Cached
