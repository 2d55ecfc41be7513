-- ===== src/Py.antt =====
-- What the tools use of Python: texts, exceptions, patterns and values.
pub mod Exn
pub mod Text
pub mod Re
pub mod Sub
pub mod Dict
pub mod Value
pub mod Repr
pub mod Sort
