-- ===== src/Jellyfin.antt =====
-- internal/jellyfin: what a client says of itself in its requests.
pub mod AuthHeader
pub mod Grammar
pub mod RoundTrip
