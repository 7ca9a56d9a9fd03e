-- ===== src/Accounts.antt =====
-- The accounts (src/keystore.py, src/users.py): where the wrapped master keys live, who may log in,
-- and how the two are brought together at startup and at a login over SFTP.
pub mod Books
pub mod Keystore
pub mod Users
pub mod Login
