-- ===== src/Common.antt =====
-- What every feature module shares: src/common and the exceptions, results and effects of a request.
pub mod Role
pub mod Exceptions
pub mod Action
pub mod Json
pub mod Stringify
pub mod Token
pub mod Sanitize
pub mod Filter
pub mod Guards
pub mod Validation
pub mod Response
