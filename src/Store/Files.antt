-- ===== src/Store/Files.antt =====
-- internal/store/encryption.go: the encryption of the state file.
pub mod Cipher
pub mod Restored
mod Tests
