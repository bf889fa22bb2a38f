-- ===== src/App.antt =====
-- src/app.module.ts: the controllers, and the way of a request through middleware, guards,
-- interceptors, pipe, handler and filter.
pub mod Data
pub mod AuthController
pub mod UserControllers
pub mod Handlers
pub mod Refines
pub mod Bearer
pub mod Removal
pub mod Replies
pub mod Signup
pub mod Trace
pub mod Isolation
pub mod Allowed
pub mod Routes
pub mod Pipeline
pub mod Server
pub mod Start
