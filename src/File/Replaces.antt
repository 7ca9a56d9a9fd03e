-- ===== src/File/Replaces.antt =====
-- Rewriting one chunk of an intact file (src/vfs.py: `_replace_chunk`) where nothing fails.
use discord_sftp_drive.Base.{
  ℕ, ◌+◌, ◌≡◌, refl, Str, List, ◌∷◌, ◌++◌, arith, length, concat, or_else, length-append,
  concat-append,
}
use mathlib.Core.Path.{subst₂, subst}
use discord_sftp_drive.Exec.{ok, Result}
use discord_sftp_drive.Seal.{Bytes}
use discord_sftp_drive.Model.{Chunk, Node, Env}
use discord_sftp_drive.Vfs.Tags.{file_mac}
use discord_sftp_drive.Vfs.Chunks.{place, safe_delete_message}
use discord_sftp_drive.File.Handle.{State, reindex}
use discord_sftp_drive.File.Cache.{put_last}
use discord_sftp_drive.File.Writing.{swap_chunk, replace_chunk}
use discord_sftp_drive.File.Layout.{Laid, Located, total, sort-Laid}
use discord_sftp_drive.File.Contents.{
  Others, Distinct, Opens, AllOpen, AllOpen-Keeps, AllOpen-delete, SameMode,
}
use discord_sftp_drive.File.Commit.{
  Healthy, RowFits-update, Sealed, upload-Healthy, commit-Healthy, committed_world,
  is_current-committed,
}
use discord_sftp_drive.File.Uploads.{Ready, Others-fresh}
use discord_sftp_drive.File.Middle.{
  Laid-middle, swap-middle, Distinct-middle, Others-replaced, AllOpen-replace, Coherent-put,
}

module _ {C : Type 0} (env : Env C) (healthy : Healthy env) where
  -- The chunk with a new attachment.
  abbrev renewed : Chunk → Chunk → Chunk
  renewed c sealed = record c {
    message_id = sealed.message_id;
    nonce = sealed.nonce;
    hmac = sealed.hmac;
  }

  -- The file after the chunk was rewritten.
  pub record Replaced (s : State C) (m : Result (Unit {0}) × State C) (pieces : List Bytes)
      : Type 0 where
    pub after : State C
    pub result : m ≡ (ok tt, after)
    pub ready : Ready env after pieces
    pub buffer_eq : after.file.buffer ≡ s.file.buffer
    pub mode : SameMode s after
    pub size_eq : after.file.node.size ≡ s.file.node.size

  abbrev swapped : State C → Chunk → Node
  swapped s new = record s.file.node { chunks = swap_chunk new s.file.node.chunks }

  abbrev replaced : State C → Chunk → Bytes → Chunk → C → State C
  replaced s c plaintext sealed channel =
      let n = swapped s (renewed c sealed) in
      let w = record s.world { channel = channel; nonces = s.world.nonces + 1 } in
      let when' = or_else s.file.pinned_mtime (env.clock w.calls) in
      record {
        world = record (committed_world env healthy n when' w) {
          channel = (env.discord.delete c.message_id channel).1;
        };
        file = reindex (record s.file {
          node = record n { mac = file_mac env n; modified_at = when' };
          cache = put_last c.index plaintext s.file.cache;
        });
      }

  replace_chunk_runs :
      (s : State C) (ps : List Bytes) (c : Chunk) (p : Bytes)
      → Ready env s ps
      → (u : Sealed env healthy s.file.node.id c.index c.offset p s.world)
      → replace_chunk env c p s ≡ (ok tt, replaced s c p u.c u.channel)
  unfolding replace_chunk safe_delete_message
  replace_chunk_runs s ps c p r u =
      rw (replace_chunk, u.result)
        (rw
          (commit-Healthy env healthy (swapped s (renewed c u.c)) s.file.pinned_mtime
            (record s.world { channel = u.channel; nonces = s.world.nonces + 1 }) r.row)
          refl)

  Opens-renewed :
      (ch : C) (id : Str) (c sealed : Chunk) (p : Bytes)
      → sealed.index ≡ c.index
      → sealed.offset ≡ c.offset
      → sealed.size ≡ c.size
      → Opens env ch id sealed p
      → Opens env ch id (renewed c sealed) p
  unfolding place
  Opens-renewed ch id c sealed p ei eo es (ct, st, tag, dec) =
      (ct, st, rw (← ei, ← eo, ← es) tag, dec)

  pub replace-Replaced :
      (s : State C) (ps : List Bytes) (p' : Bytes) {at : ℕ}
      → Ready env s ps
      → (l : Located 0 0 s.file.node.chunks ps at) → length p' ≡ length l.p
      → Replaced s (replace_chunk env l.c p' s) (l.pre ++ p' ∷ l.post)
  unfolding reindex
  replace-Replaced s ps p' r l same = record {
    after = replaced s l.c p' u.c u.channel;
    result = replace_chunk_runs s ps l.c p' r u;
    ready = record {
      intact = record {
        laid = rw swap laid';
        opens = rw swap (
            AllOpen-delete env l.c.message_id u.channel n.id (l.cpre ++ new ∷ l.cpost)
              (l.pre ++ p' ∷ l.post) (Others-replaced l.cpre l.c new l.cpost distinct' unused)
              opens');
        distinct = rw swap (Distinct-middle l.cpre l.c new l.cpost distinct' unused);
        sized = omega (arith, r.intact.sized, total_eq);
        indexed = rw swap (sort-Laid 0 0 (l.cpre ++ new ∷ l.cpost) (l.pre ++ p' ∷ l.post) laid');
        coherent =
            Coherent-put s.file.cache l.pre l.p p' l.post l.c.index (omega (arith, l.index_eq))
              (rw (← l.pieces_eq) r.intact.coherent);
        current =
            is_current-committed env healthy (replaced s l.c p' u.c u.channel).file.node _
              s.world.versions refl;
      };
      row = RowFits-update n.id _ _ _ s.world.nodes r.row;
    };
    buffer_eq = refl;
    mode = (refl, refl, refl, refl);
    size_eq = refl;
  }
    where
      n : Node
      n = s.file.node

      u : Sealed env healthy n.id l.c.index l.c.offset p' s.world
      u = upload-Healthy env healthy n.id l.c.index l.c.offset p' s.world

      new : Chunk
      new = renewed l.c u.c

      laid0 : Laid 0 0 (l.cpre ++ l.c ∷ l.cpost) (l.pre ++ l.p ∷ l.post)
      laid0 = subst₂ (Laid 0 0) l.chunks_eq l.pieces_eq r.intact.laid

      laid' : Laid 0 0 (l.cpre ++ new ∷ l.cpost) (l.pre ++ p' ∷ l.post)
      laid' =
          Laid-middle 0 0 l.cpre l.c new l.cpost l.pre l.p p' l.post laid0 l.same_length refl refl
            refl same

      swap : swap_chunk new n.chunks ≡ l.cpre ++ new ∷ l.cpost
      swap = rw l.chunks_eq (
          swap-middle 0 0 l.cpre l.c new l.cpost l.pre l.p l.post laid0 l.same_length refl
            (omega (arith, l.index_eq)))

      distinct' : Distinct (l.cpre ++ l.c ∷ l.cpost)
      distinct' = subst Distinct l.chunks_eq r.intact.distinct

      unused : Others u.c.message_id (l.cpre ++ l.c ∷ l.cpost)
      unused =
          subst (Others u.c.message_id) l.chunks_eq (
            Others-fresh env u.c.message_id s.world.channel n.id n.chunks ps u.fresh r.intact.opens)

      opens0 : AllOpen env u.channel n.id (l.cpre ++ l.c ∷ l.cpost) (l.pre ++ l.p ∷ l.post)
      opens0 =
          subst₂ (AllOpen env u.channel n.id) l.chunks_eq l.pieces_eq
            (AllOpen-Keeps env n.id n.chunks ps u.keeps r.intact.opens)

      opens' : AllOpen env u.channel n.id (l.cpre ++ new ∷ l.cpost) (l.pre ++ p' ∷ l.post)
      opens' =
          AllOpen-replace env u.channel n.id l.cpre l.c new l.cpost l.pre l.p p' l.post
            l.same_length opens0
            (Opens-renewed u.channel n.id l.c u.c p' u.index_eq u.offset_eq
              (omega (arith, u.size_eq, l.size_eq, same)) u.opens)

      total_eq : total (l.pre ++ p' ∷ l.post) ≡ total ps
      total_eq =
          rw (l.pieces_eq, concat-append l.pre (p' ∷ l.post), concat-append l.pre (l.p ∷ l.post))
            (omega (
              arith,
              same,
              length-append (concat l.pre) (p' ++ concat l.post),
              length-append (concat l.pre) (l.p ++ concat l.post),
              length-append p' (concat l.post),
              length-append l.p (concat l.post),
            ))
