-- ===== src/Net.antt =====
-- acatl_network: HTTP messages, sessions, cookies and query parameters.
pub mod HttpTypes
pub mod HttpParser
pub mod HttpSession
pub mod HttpQueryParameter
pub mod HttpCookie
pub mod HttpStatus
pub mod HttpUrl
pub mod HttpServer
mod Examples
