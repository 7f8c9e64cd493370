-- ===== src/Sftp/Client/Sparing.antt =====
-- What the users of the client of SFTP rely on, for the calls that remove or write.
use litestream.Prelude.{ℕ, ◌≤◌, ◌≡◌, ap, Option, List, Error, Result, All, ◌>>◌}
use litestream.Text.{Text}
use litestream.Pos.{Pos, max_int}
use litestream.Client.{Time}
use litestream.Client.Remote.{File, snapshot_file, segment_file, file_generation, InRange, IsName}
use litestream.Files.Client.Paths.{shape}
use litestream.Sftp.Server.{SftpServer, IsLawful}
use litestream.Sftp.Client.{
  ready, delete_generation, delete_snapshot, delete_wal_segments, write_snapshot, write_wal_segment,
  snapshot_reader, wal_segment_reader, read_file,
}
use litestream.Sftp.Client.Keeps.{
  delete_generation-Same, delete_snapshot-Same, delete_wal_segments-Same, write_snapshot-Same,
  write_wal_segment-Same,
}

module _ (S : SftpServer) (path : Text) (started : Option Error) (now : Time) where
  -- The file is readable as it was.
  abbrev pub Unchanged : File → S.State → S.State → Type 0
  Unchanged file s t = read_file S path started now t file ≡ read_file S path started now s file

  -- A call leaves all other files as they are, whether it succeeds or not.
  pub record SparesOthers : Type 0 where
    pub generation_deleted :
        (generation : Text) (file : File) (s : S.State)
        → IsName generation
        → IsName (file_generation file)
        → (file_generation file ≡ generation → ⊥)
        → Unchanged file s (delete_generation S path started now generation s).1
    pub snapshot_deleted :
        (generation : Text) (index : ℕ) (file : File) (s : S.State)
        → IsName generation
        → IsName (file_generation file)
        → index ≤ max_int
        → InRange file
        → (file ≡ snapshot_file generation index → ⊥)
        → Unchanged file s (delete_snapshot S path started now generation index s).1
    pub segments_deleted :
        (a : List Pos) (file : File) (s : S.State)
        → IsName (file_generation file)
        → All (λ (p : Pos). IsName p.generation) a
        → InRange file
        → All (λ p. InRange (segment_file p) × (file ≡ segment_file p → ⊥)) a
        → Unchanged file s (delete_wal_segments S path started now a s).1
    pub snapshot_written :
        (generation : Text) (index : ℕ) (reader : Result (List ℕ)) (file : File) (s : S.State)
        → IsName generation
        → IsName (file_generation file)
        → index ≤ max_int
        → InRange file
        → (file ≡ snapshot_file generation index → ⊥)
        → Unchanged file s (write_snapshot S path started now generation index reader s).1
    pub segment_written :
        (pos : Pos) (reader : Result (List ℕ)) (file : File) (s : S.State)
        → IsName pos.generation
        → IsName (file_generation file)
        → InRange (segment_file pos)
        → InRange file
        → (file ≡ segment_file pos → ⊥)
        → Unchanged file s (write_wal_segment S path started now pos reader s).1

  unchanged :
      (file : File) (s t : S.State)
      → S.get (shape path file) t ≡ S.get (shape path file) s
      → Unchanged file s t
  unfolding read_file snapshot_reader wal_segment_reader
  unchanged (snapshot_file g i) s t h = ap (λ r. ready S path started now g >> r) h
  unchanged (segment_file p) s t h = ap (λ r. ready S path started now p.generation >> r) h

  -- The calls of the client of SFTP that remove or write something, on a server that keeps to what is
  -- documented, leave every other snapshot and segment readable as it was, whether they succeed or
  -- not, for generations that are names in a path.
  pub sftp_client-SparesOthers : IsLawful S → SparesOthers
  sftp_client-SparesOthers L = record {
    generation_deleted = λ generation file s n m d.
        unchanged file s _ (delete_generation-Same S L path started now file generation s d);
    snapshot_deleted = λ generation index file s n m k h d.
        unchanged file s _
          (delete_snapshot-Same S L path started now file generation index s k h d);
    segments_deleted = λ a file s n m h l.
        unchanged file s _ (delete_wal_segments-Same S L path started now file a s h l);
    snapshot_written = λ generation index reader file s n m k h d.
        unchanged file s _
          (write_snapshot-Same S L path started now file generation index reader s k h d);
    segment_written = λ pos reader file s n m k h d.
        unchanged file s _ (write_wal_segment-Same S L path started now file pos reader s k h d);
  }
