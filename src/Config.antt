-- ===== src/Config.antt =====
-- src/config: the namespaces that are read from the environment, and its validation.
pub mod Numbers
pub mod Namespaces
pub mod Printed
pub mod Validation
