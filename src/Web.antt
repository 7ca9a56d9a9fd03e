-- ===== src/Web.antt =====
-- The HTTP interface over sessions, the guard of the login, the accounts and the file system
-- (src/web.py): who a request is let through for, and what a sign-in does.
pub mod Gate
pub mod SignIn
pub mod Guarded
pub mod SignedIn
