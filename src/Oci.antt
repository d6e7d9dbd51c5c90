-- ===== src/Oci.antt =====
-- internal/ociproxy/proxy.go: the pull-through proxy of an OCI registry.
pub mod Digest
pub mod Proxy
pub mod Serve
pub mod Status
pub mod Opening
pub mod Sums
pub mod Counting
pub mod Integrity
pub mod Manifests
mod Tests
