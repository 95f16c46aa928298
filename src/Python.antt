-- ===== src/Python.antt =====
-- What the code takes from Python itself: exceptions, methods that change an object and may raise,
-- and the `struct` formats.
pub mod Exec
pub mod Lists
pub mod Dict
pub mod Struct
pub mod Enums
