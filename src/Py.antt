-- ===== src/Py.antt =====
-- The parts of Python that the source stands on: exceptions, bytes, struct and the UTF-16 codec.
pub mod Effect
pub mod Result
pub mod Bytes
pub mod Utf16
pub mod Text
pub mod Dict
pub mod Decimal
pub mod Int
