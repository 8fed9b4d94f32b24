-- ===== src/Keyb.antt =====
-- fd32/modules/keyb/src: the keyboard driver.
pub mod Queues
pub mod Flags
pub mod Tests
