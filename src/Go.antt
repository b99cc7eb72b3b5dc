-- ===== src/Go.antt =====
-- What the program uses of Go and of its standard library.
pub mod Int64
pub mod Strings
pub mod Filepath
pub mod Strconv
pub mod Base64
pub mod Binary
pub mod Errors
pub mod Action
pub mod Context
pub mod Time
