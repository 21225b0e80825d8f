-- ===== src/Python.antt =====
-- What the code uses of Python itself: exceptions, integers, floats and dynamically typed values.
pub mod Exceptions
pub mod Int
pub mod Float
pub mod Value
pub mod Action
