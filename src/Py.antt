-- ===== src/Py.antt =====
-- What the program uses of Python: exceptions as values, `bytes` with negative indices and
-- clipping slices, `struct`, UTF-8, and decimal text. `Bytes` is a list of numbers below 256
-- (where that matters it is a hypothesis) and `Text` is a list of code points.
pub mod Result
pub mod Seq
pub mod Struct
pub mod Utf8
pub mod Decimal
pub mod Equality
pub mod Table
pub mod Url
pub mod Base32
pub mod Stateful
