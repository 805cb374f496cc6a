-- ===== src/Demo.antt =====
-- The demonstration programs: main.c and spam.c.
pub mod Spam
pub mod Main
pub mod Deleting
pub mod Leftover
