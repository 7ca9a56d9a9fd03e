-- ===== src/Crypto.antt =====
-- Cryptography (src/crypto.py): the bytes that each tag covers (`Payloads`), the CTR stream
-- (`Stream`), and the wrapped master key (`Wrap`). HMAC-SHA256, HKDF, AES and the password hashes
-- are library code and stand as parameters.
pub mod Codec
pub mod Payloads
pub mod Stream
pub mod Wrap
pub mod Keyed
