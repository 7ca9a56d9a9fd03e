-- ===== src/Crypto/Keyed.antt =====
-- The file system's cryptography (src/crypto.py) for one session key, from the payloads and the
-- stream: HMAC under the key's content subkey is a parameter, of which only that a digest is not
-- empty is used.
use discord_sftp_drive.Base.{◌≢◌, Str, []}
use discord_sftp_drive.Seal.{Bytes, Seal}
use discord_sftp_drive.Crypto.Payloads.{chunk_payload, node_payload, dir_payload, entries_payload}
use discord_sftp_drive.Crypto.Stream.{Aes, transform, transform-twice, length-transform}

-- `chunk_tag`, `node_tag`, `dir_tag`, `dir_entries_tag` and `transform` under one key.
abbrev pub keyed_seal :
    (aes : Aes) (key : Bytes) (nfc : Str → Str) (digest : Bytes → Bytes)
    → ((b : Bytes) → digest b ≢ [])
    → Seal
keyed_seal aes key nfc digest digest-ne-nil = record {
  transform = λ n p. transform aes key n p 0;
  chunk_tag = λ n ct p. digest (chunk_payload n ct p);
  node_tag = λ s. digest (node_payload nfc s);
  dir_tag = λ s. digest (dir_payload nfc s);
  dir_entries_tag = λ i es. digest (entries_payload nfc i es);
  transform_inv = λ n p. transform-twice aes key n p 0;
  length-transform = λ n p. length-transform aes key n p 0;
  chunk_tag-ne-nil = λ n ct p. digest-ne-nil (chunk_payload n ct p);
  node_tag-ne-nil = λ s. digest-ne-nil (node_payload nfc s);
  dir_tag-ne-nil = λ s. digest-ne-nil (dir_payload nfc s);
  dir_entries_tag-ne-nil = λ i es. digest-ne-nil (entries_payload nfc i es);
}
