-- ===== src/Http.antt =====
-- http_server/src and http_server/include: the messages of HTTP, in and out.
pub mod Method
pub mod Headers
pub mod Request
pub mod RequestCreator
pub mod ContentType
pub mod Response
pub mod ResponseReader
