-- ===== src/Buffer.antt =====
-- gtools/core/buffer.py: the byte buffer with a read and a write cursor that every codec of the
-- program goes through. A method is an action of `Exec Buffer`; a count of -1 is `none`, and other
-- negative counts are outside the model. Text decoding is left to the callers.
pub mod Raw
pub mod Values
pub mod Seek
pub mod Modes
pub mod Frame
pub mod RoundTrip
pub mod Strings
pub mod Search
pub mod Invariant
