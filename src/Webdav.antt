-- ===== src/Webdav.antt =====
-- protocols/webdav/src: the parts of the WebDAV client that ask no server.
pub mod Locator
pub mod RoundTrip
mod Examples
