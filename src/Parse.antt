-- ===== src/Parse.antt =====
-- Library/Implementation/HTParse.c: the parts of a document address.
pub mod Escape
pub mod Clean
pub mod Address
pub mod Relative
mod Tests
