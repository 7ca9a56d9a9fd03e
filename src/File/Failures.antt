-- ===== src/File/Failures.antt =====
-- An upload that fails (src/vfs.py: `_upload_chunk`, `_rollback`), and what it leaves.
use discord_sftp_drive.Base.{
  or_else, ℕ, ◌+◌, ◌≡◌, ◌≢◌, refl, ap, ◌∙◌, Str, true, false, Option, none, some, [], ◌∷◌, ◌++◌,
  arith, length, max, Bool-cases, Option-cases, inl, inr,
}
use discord_sftp_drive.Exec.{ok, raise, Result, Error, Result-cases}
use discord_sftp_drive.Seal.{Bytes}
use discord_sftp_drive.Model.{Chunk, Node, Env, World}
use discord_sftp_drive.Store.{update_one}
use discord_sftp_drive.Vfs.Tags.{commit_content, file_mac, with_content}
use discord_sftp_drive.Vfs.Chunks.{upload_sealed, covered_end, safe_delete_message}
use discord_sftp_drive.File.Handle.{State}
use discord_sftp_drive.File.Unwind.{rollback, release, tally_delete}
use discord_sftp_drive.File.Writing.{upload_chunk}
use discord_sftp_drive.File.Contents.{Keeps}

module _ {C : Type 0} (env : Env C) where
  -- A call that changes a document and fails has changed none.
  update_one-failed :
      (i : Str) (f : Node → Node) (w : World C) (e : Error)
      → (update_one env i f w).0 ≡ raise e
      → ((update_one env i f w).1.nodes ≡ w.nodes) × ((update_one env i f w).1.channel ≡ w.channel)
  unfolding update_one
  update_one-failed i f w e h = ground arith

  commit_content-failed :
      (n : Node) (mtime : Option ℕ) (w : World C) (e : Error)
      → (commit_content env n mtime w).0 ≡ raise e
      → ((commit_content env n mtime w).1.nodes ≡ w.nodes)
        × ((commit_content env n mtime w).1.channel ≡ w.channel)
  unfolding commit_content
  commit_content-failed n mtime w e h =
      let when' = or_else mtime (env.clock w.calls) in
      let f = with_content n (file_mac env n) when' in
      elim (Result-cases (update_one env n.id f w).0) [
        | inr (e', bad) ↦ rw (commit_content, bad) (update_one-failed n.id f w e' bad)
        | inl (u, good) ↦
            let landed : (commit_content env n mtime w).0
                ≡ ok (record n { mac = file_mac env n; modified_at = when' }) =
              rw (commit_content, good) in
            cc (landed, h)
      ]

  -- The handle has failed, and nothing that was committed is lost: the documents, the handle's
  -- own, and every attachment that was there.
  pub record Untouched (s t : State C) : Type 0 where
    pub nodes : t.world.nodes ≡ s.world.nodes
    pub node : t.file.node ≡ s.file.node
    pub keeps : Keeps env s.world.channel t.world.channel
    pub failed : t.file.failed ≡ true

  rollback-existing :
      (s : State C)
      → s.file.created ≡ false
      → ((rollback env s).0 ≡ ok tt)
        × ((rollback env s).1.world ≡ s.world)
        × ((rollback env s).1.file.node ≡ s.file.node)
        × ((rollback env s).1.file.failed ≡ true)
  unfolding rollback
  rollback-existing s old = elim (Bool-cases s.file.failed) [
    | inl again ↦ simp (rollback, again) (refl, refl, refl, refl)
    | inr first ↦ simp (rollback, first, old) (refl, refl, refl, refl)
  ]

  release_runs :
      (m : ℕ) (s : State C)
      → ((release env m s).0 ≡ ok tt)
        × ((release env m s).1.world
            ≡ record s.world { channel = (env.discord.delete m s.world.channel).1 })
        × ((release env m s).1.file.node ≡ s.file.node)
        × ((release env m s).1.file.created ≡ s.file.created)
  unfolding release safe_delete_message tally_delete
  release_runs m s = elim (Bool-cases (env.discord.delete m s.world.channel).0) [
    | inl gone ↦ rw gone (refl, refl, refl, refl)
    | inr left ↦ rw left (refl, refl, refl, refl)
  ]

  -- `_rollback` behind a state in which nothing is lost.
  Untouched-rollback :
      (s t : State C)
      → t.file.created ≡ false
      → t.world.nodes ≡ s.world.nodes
      → t.file.node ≡ s.file.node
      → Keeps env s.world.channel t.world.channel
      → Untouched s (rollback env t).1
  Untouched-rollback s t old nodes node keeps =
      let rb = rollback-existing t old in
      record {
        nodes = ap (λ w. w.nodes) rb.1 ∙ nodes;
        node = rb.2 ∙ node;
        keeps = λ j x st. rw rb.1 (keeps j x st);
        failed = rb.3;
      }

  -- The attachment that was just posted is deleted again: none of those before it is.
  Keeps-posted :
      (b : Bytes) (ch : C) (m : ℕ)
      → (env.discord.upload b ch).0 ≡ some m
      → Keeps env ch (env.discord.delete m (env.discord.upload b ch).1).1
  Keeps-posted b ch m sent j x st =
      let other : j ≢ m = λ same.
        cc (env.discord.upload_fresh b ch m sent, st, ap (λ i. env.discord.stored i ch) same) in
      rw (env.discord.delete_keeps m (env.discord.upload b ch).1 j other)
        (env.discord.upload_keeps b ch j x st)

  abbrev ciphertext : State C → Bytes → Bytes
  ciphertext s data' = env.seal.transform (env.nonce s.world.nonces) data'

  abbrev posted : State C → Bytes → World C
  posted s data' = record s.world {
    channel = (env.discord.upload (ciphertext s data') s.world.channel).1;
    nonces = s.world.nonces + 1;
  }

  abbrev sealed : State C → Bytes → ℕ → Chunk
  sealed s data' m =
      let offset = covered_end s.file.node.chunks in
      record {
        index = length s.file.node.chunks;
        message_id = m;
        nonce = env.nonce s.world.nonces;
        hmac = env.seal.chunk_tag (env.nonce s.world.nonces) (ciphertext s data') (record {
          file_id = s.file.node.id;
          index = length s.file.node.chunks;
          offset = offset;
          size = length data';
        });
        offset = offset;
        size = length data';
      }

  abbrev extended : State C → Bytes → ℕ → Node
  extended s data' m = record s.file.node {
    chunks = s.file.node.chunks ++ sealed s data' m ∷ [];
    size = max s.file.node.size (covered_end s.file.node.chunks + length data');
  }

  abbrev counted : State C → World C → State C
  counted s w = record {
    world = w;
    file = record s.file { chunks_uploaded = s.file.chunks_uploaded + 1 };
  }

  upload_refused :
      (s : State C) (b : ℕ) (bs : Bytes)
      → s.file.created ≡ false
      → (env.discord.upload (ciphertext s (b ∷ bs)) s.world.channel).0 ≡ none
      → (upload_chunk env (b ∷ bs) s).1 ≡ (rollback env (record s { world = posted s (b ∷ bs) })).1
  unfolding upload_chunk upload_sealed
  upload_refused s b bs old lost =
      rw (upload_chunk, lost, (rollback-existing (record s { world = posted s (b ∷ bs) }) old).0)

  module _ (s : State C) (b : ℕ) (bs : Bytes) (m : ℕ)
      (sent : (env.discord.upload (ciphertext s (b ∷ bs)) s.world.channel).0 ≡ some m) where
    abbrev committing : Result Node × World C
    committing = commit_content env (extended s (b ∷ bs) m) s.file.pinned_mtime (posted s (b ∷ bs))

    commit_landed : (n : Node) → committing.0 ≡ ok n → (upload_chunk env (b ∷ bs) s).0 ≡ ok tt
    unfolding upload_chunk upload_sealed
    commit_landed n good = rw (upload_chunk, sent, good)

    commit_refused :
        (e : Error)
        → s.file.created ≡ false
        → committing.0 ≡ raise e
        → (upload_chunk env (b ∷ bs) s).1
          ≡ (rollback env (release env m (counted s committing.1)).1).1
    unfolding upload_chunk upload_sealed
    commit_refused e old bad =
        let freed = release_runs m (counted s committing.1) in
        rw (
          upload_chunk,
          sent,
          bad,
          freed.0,
          (rollback-existing (release env m (counted s committing.1)).1 (freed.3 ∙ old)).0,
        )

  -- If `_upload_chunk` raises, whatever failed in it, on a handle that did not create its file, then
  -- the handle is marked as failed, the stored documents and the handle's own are those from before,
  -- and every attachment that was stored before still is.
  pub upload_chunk-failed :
      (s : State C) (data' : Bytes) (e : Error)
      → s.file.created ≡ false
      → (upload_chunk env data' s).0 ≡ raise e
      → Untouched s (upload_chunk env data' s).1
  unfolding upload_chunk
  upload_chunk-failed s [] e old h = cc
  upload_chunk-failed s (b ∷ bs) e old h =
      let ct = ciphertext s (b ∷ bs) in
      elim (Option-cases (env.discord.upload ct s.world.channel).0) [
        | inl lost ↦ rw (upload_refused s b bs old lost) (
            Untouched-rollback s (record s { world = posted s (b ∷ bs) }) old refl refl
              (env.discord.upload_keeps ct s.world.channel))
        | inr (m, sent) ↦ elim (Result-cases (committing s b bs m sent).0) [
          | inl (n, good) ↦ cc (commit_landed s b bs m sent n good, h)
          | inr (e', bad) ↦
              let kept =
                commit_content-failed (extended s (b ∷ bs) m) s.file.pinned_mtime
                  (posted s (b ∷ bs)) e' bad in
              let u = counted s (committing s b bs m sent).1 in
              let freed = release_runs m u in
              rw (commit_refused s b bs m sent e' old bad) (
                Untouched-rollback s (release env m u).1 (freed.3 ∙ old)
                  (ap (λ w. w.nodes) freed.1 ∙ kept.0) freed.2
                  (rw (freed.1, kept.1) (Keeps-posted ct s.world.channel m sent)))
        ]
      ]
