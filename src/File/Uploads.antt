-- ===== src/File/Uploads.antt =====
-- Appending chunks (src/vfs.py: `_upload_chunk`, `_flush_buffer`, `_append_now`) on an intact
-- file where nothing fails.
use discord_sftp_drive.Base.{
  ℕ, ◌+◌, ◌≤◌, ◌<◌, ◌≡◌, ◌≢◌, refl, ap, sym, Str, true, false, none, List, [], ◌∷◌, ◌++◌, arith,
  length, concat, All-append, get_elem?-append_some, max, or_else, is_empty, concat-append,
  length-append,
}
use mathlib.Core.List.{append-nil}
use discord_sftp_drive.Exec.{ok, Result}
use discord_sftp_drive.Seal.{Bytes}
use discord_sftp_drive.Model.{Chunk, Node, Env}
use discord_sftp_drive.Vfs.Tags.{file_mac}
use discord_sftp_drive.Vfs.Chunks.{covered_end}
use discord_sftp_drive.File.Handle.{State, reindex}
use discord_sftp_drive.File.Writing.{upload_chunk}
use discord_sftp_drive.File.Layout.{Laid, total, Laid-snoc, covered_end-Laid, sort-Laid}
use discord_sftp_drive.File.Contents.{
  Others, Distinct, Coherent, AllOpen, Intact, AllOpen-Keeps, AllOpen-snoc, SameMode,
}
use discord_sftp_drive.File.Commit.{
  Healthy, RowFits, RowFits-update, Sealed, upload-Healthy, commit-Healthy, committed_world,
  is_current-committed,
}

-- What is stored under a chunk's id is not stored under a fresh one.
pub Others-fresh :
    {C : Type 0} (env : Env C) (m : ℕ) (ch : C) (id : Str) (cs : List Chunk) (ps : List Bytes)
    → env.discord.stored m ch ≡ none
    → AllOpen env ch id cs ps
    → Others m cs
Others-fresh env m ch id [] [] e h = tt
Others-fresh env m ch id [] (p ∷ ps) e h = absurd h
Others-fresh env m ch id (c ∷ cs) [] e h = absurd h
Others-fresh env m ch id (c ∷ cs) (p ∷ ps) e ((ct, st, tag, dec), rest) = (
  (λ same. cc (st, e, ap (λ j. env.discord.stored j ch) same)),
  Others-fresh env m ch id cs ps e rest,
)

Distinct-snoc :
    (cs : List Chunk) (c : Chunk) → Distinct cs → Others c.message_id cs → Distinct (cs ++ c ∷ [])
Distinct-snoc [] c d o = (tt, tt)
Distinct-snoc (x ∷ cs) c (o', d) (ne, o) = (
  All-append (λ y. y.message_id ≢ x.message_id) cs (c ∷ []) o' ((λ e. ne (sym e)), tt),
  Distinct-snoc cs c d o,
)

Coherent-append :
    (cache : List (ℕ × Bytes)) (ps qs : List Bytes) → Coherent cache ps → Coherent cache (ps ++ qs)
Coherent-append [] ps qs h = tt
Coherent-append (e ∷ cache) ps qs (h, rest) =
    (get_elem?-append_some ps qs e.0 h, Coherent-append cache ps qs rest)

pub is_empty-eq : (b : Bytes) → is_empty b ≡ true → b ≡ []
is_empty-eq [] h = refl
is_empty-eq (x ∷ b) h = cc

pub is_empty-lt : (b : Bytes) → is_empty b ≡ false → 0 < length b
is_empty-lt [] h = cc
is_empty-lt (x ∷ b) h = omega arith

-- An intact file whose handle works and whose document may be written.
pub record Ready {C : Type 0} (env : Env C) (s : State C) (ps : List Bytes) : Type 0 where
  pub intact : Intact env s ps
  pub row : RowFits s.file.node.id s.world.nodes

module _ {C : Type 0} (env : Env C) (healthy : Healthy env) where
  -- An action that went well: the chunks now hold `bytes`, and `buffer` is what is still buffered.
  pub record Placed {A : Type 0} (s : State C) (m : Result A × State C) (a : A)
      (bytes buffer : Bytes) : Type 0 where
    pub after : State C
    pub pieces : List Bytes
    pub result : m ≡ (ok a, after)
    pub ready : Ready env after pieces
    pub concat_eq : concat pieces ≡ bytes
    pub buffer_eq : after.file.buffer ≡ buffer
    pub mode : SameMode s after
    pub grows : s.file.node.size ≤ after.file.node.size
    pub bounded : after.file.node.size ≤ max s.file.node.size (length bytes)

  abbrev grown : State C → Chunk → ℕ → Node
  grown s c len = record s.file.node {
    chunks = s.file.node.chunks ++ c ∷ [];
    size = max s.file.node.size (covered_end s.file.node.chunks + len);
  }

  abbrev appended : State C → Chunk → C → ℕ → State C
  appended s c channel len =
      let n = grown s c len in
      let w = record s.world { channel = channel; nonces = s.world.nonces + 1 } in
      let when' = or_else s.file.pinned_mtime (env.clock w.calls) in
      record {
        world = committed_world env healthy n when' w;
        file = reindex (record s.file {
          node = record n { mac = file_mac env n; modified_at = when' };
          chunks_uploaded = s.file.chunks_uploaded + 1;
        });
      }

  upload_chunk_runs :
      (s : State C) (ps : List Bytes) (b : ℕ) (bs : Bytes)
      → Ready env s ps
      → (u : Sealed env healthy s.file.node.id
          (length s.file.node.chunks)
          (covered_end s.file.node.chunks)
          (b ∷ bs)
          s.world)
      → upload_chunk env (b ∷ bs) s ≡ (ok tt, appended s u.c u.channel (length (b ∷ bs)))
  unfolding upload_chunk
  upload_chunk_runs s ps b bs r u =
      rw (upload_chunk, u.result)
        (rw
          (commit-Healthy env healthy (grown s u.c (length (b ∷ bs))) s.file.pinned_mtime
            (record s.world { channel = u.channel; nonces = s.world.nonces + 1 }) r.row)
          refl)

  appended-Ready :
      (s : State C) (ps : List Bytes) (p : Bytes)
      → 0 < length p
      → Ready env s ps
      → (u : Sealed env healthy s.file.node.id
          (length s.file.node.chunks)
          (covered_end s.file.node.chunks)
          p
          s.world)
      → Ready env (appended s u.c u.channel (length p)) (ps ++ p ∷ [])
  unfolding reindex
  appended-Ready s ps p pos' r u = record {
    intact = record {
      laid = laid';
      opens =
          AllOpen-snoc env u.channel s.file.node.id s.file.node.chunks ps u.c p
            (AllOpen-Keeps env s.file.node.id s.file.node.chunks ps u.keeps r.intact.opens) u.opens;
      distinct = Distinct-snoc s.file.node.chunks u.c r.intact.distinct (
          Others-fresh env u.c.message_id s.world.channel s.file.node.id s.file.node.chunks ps
            u.fresh r.intact.opens);
      sized = omega (arith, end_eq, total-snoc);
      indexed = sort-Laid 0 0 (s.file.node.chunks ++ u.c ∷ []) (ps ++ p ∷ []) laid';
      coherent = Coherent-append s.file.cache ps (p ∷ []) r.intact.coherent;
      current = is_current-committed env healthy n _ s.world.versions refl;
    };
    row = RowFits-update n.id _ _ _ s.world.nodes r.row;
  }
    where
      n : Node
      n = (appended s u.c u.channel (length p)).file.node

      end_eq : covered_end s.file.node.chunks ≡ total ps
      end_eq = covered_end-Laid 0 s.file.node.chunks ps r.intact.laid

      total-snoc : total (ps ++ p ∷ []) ≡ total ps + length p
      total-snoc =
          rw concat-append (omega (arith, length-append (concat ps) (p ++ []), length-append p []))

      laid' : Laid 0 0 (s.file.node.chunks ++ u.c ∷ []) (ps ++ p ∷ [])
      laid' =
          Laid-snoc 0 0 s.file.node.chunks ps u.c p r.intact.laid (omega (arith, u.index_eq))
            (omega (arith, u.offset_eq, end_eq)) u.size_eq pos'

  pub Placed-here :
      (s : State C) (ps : List Bytes)
      → Ready env s ps
      → Placed s (ok tt, s) tt (concat ps ++ []) s.file.buffer
  Placed-here s ps r = record {
    after = s;
    pieces = ps;
    result = refl;
    ready = r;
    concat_eq = rw append-nil;
    buffer_eq = refl;
    mode = (refl, refl, refl, refl);
    grows = omega arith;
    bounded = omega arith;
  }

  pub upload-Placed :
      (s : State C) (ps : List Bytes) (p : Bytes)
      → 0 < length p
      → Ready env s ps
      → Placed s (upload_chunk env p s) tt (concat ps ++ p) s.file.buffer
  unfolding reindex
  upload-Placed s ps [] pos' r = absurd (omega arith)
  upload-Placed s ps (b ∷ bs) pos' r =
      let u =
        upload-Healthy env healthy s.file.node.id (length s.file.node.chunks)
          (covered_end s.file.node.chunks) (b ∷ bs) s.world in
      record {
        after = appended s u.c u.channel (length (b ∷ bs));
        pieces = ps ++ (b ∷ bs) ∷ [];
        result = upload_chunk_runs s ps b bs r u;
        ready = appended-Ready s ps (b ∷ bs) pos' r u;
        concat_eq = rw (concat-append, append-nil);
        buffer_eq = refl;
        mode = (refl, refl, refl, refl);
        grows = omega arith;
        bounded = omega (
          arith,
          covered_end-Laid 0 s.file.node.chunks ps r.intact.laid,
          length-append (concat ps) (b ∷ bs),
        );
      }
