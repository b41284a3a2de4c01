-- ===== src/HttpBinding.antt =====
-- internal/httpbinding: HTTP services exposed as tools.
pub mod Escape
pub mod Segments
pub mod Paths
pub mod Format
pub mod Template
pub mod Arguments
pub mod Requests
pub mod Responses
pub mod Calls
pub mod Listing
