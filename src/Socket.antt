-- ===== src/Socket.antt =====
-- src/Socket.h and src/Socket.cpp: the functions that scripts call on sockets. A pointer to a socket
-- is the number at which `World.sockets` holds it.
pub mod Receive
pub mod Send
pub mod Create
pub mod Blocking
pub mod Connect
pub mod Fields
pub mod Saved
pub mod References
pub mod System
pub mod Stream
pub mod Samples
