-- ===== src/Socket.antt =====
-- http_server/socket: the calls of the operating system behind a connection. What the system
-- answers is an argument: one answer for each call, in the order of the calls.
pub mod Send
pub mod Receive
pub mod Open
pub mod Address
