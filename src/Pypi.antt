-- ===== src/Pypi.antt =====
-- internal/pypiproxy/proxy.go: the proxy of a Python package index, with a private index beside it.
pub mod Names
pub mod Normal
pub mod Origins
pub mod Urls
pub mod Proxy
pub mod Texts
pub mod Links
pub mod Documents
pub mod RoundTrip
pub mod Disk
pub mod Linking
pub mod Uploads
pub mod Private
pub mod Publish
pub mod Serve
pub mod Handler
pub mod Status
pub mod Access
pub mod Token
mod Samples
mod Tests
