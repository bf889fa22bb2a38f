-- ===== src/Dto.antt =====
-- The request bodies: src/auth/dto, src/users/dto, src/common/dto, and the pipe that src/main.ts puts
-- before every handler.
pub mod Rules
pub mod Pipe
pub mod Passed
pub mod Read
pub mod Receive
pub mod Typed
pub mod Fields
pub mod Vetted
pub mod Undeclared
pub mod Strong
