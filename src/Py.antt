-- ===== src/Py.antt =====
-- What the code uses of Python.
pub mod Errors
pub mod Exec
pub mod Json
pub mod Text
pub mod Convert
