-- ===== src/Client/Remote.antt =====
-- replica_client.go: the interface `ReplicaClient`, as far as it writes. A client is a parameter of
-- the code that uses it; `Careful` is what its documentation promises.
use litestream.Prelude.{
  ℕ, ◌≤◌, ◌≡◌, Bool, true, false, not, ◌&&◌, ◌||◌, ◌==◌, List, [], ◌∷◌, Result, ok, All,
}
use litestream.Text.{Text}
use litestream.Pos.{Pos, max_int}
use litestream.Client.Infos.{segment_pos, SnapshotInfo, WalSegmentInfo, Listing, ReplicaClient}

pub record RemoteClient : Type 1 where
  pub State : Type 0
  pub reads : State → ReplicaClient
  pub delete_generation : Text → State → Result (Unit {0}) × State
  pub delete_snapshot : Text → ℕ → State → Result (Unit {0}) × State
  pub delete_wal_segments : List Pos → State → Result (Unit {0}) × State
  -- The reader gives the bytes of the snapshot, or fails.
  pub write_snapshot : Text → ℕ → Result (List ℕ) → State → Result SnapshotInfo × State

-- What a client can be asked for: a snapshot by generation and index, or a segment.
pub data File : Type 0 where
  snapshot_file : Text → ℕ → File
  segment_file : Pos → File

unfoldable pub read_file : ReplicaClient → File → Result (List ℕ)
read_file client (snapshot_file generation index) = client.snapshot_reader generation index
read_file client (segment_file pos) = client.wal_segment_reader pos

abbrev pub file_generation : File → Text
file_generation (snapshot_file generation index) = generation
file_generation (segment_file pos) = pos.generation

abbrev pub file_index : File → ℕ
file_index (snapshot_file generation index) = index
file_index (segment_file pos) = pos.index

-- Indexes and offsets are those of a Go `int`.
abbrev pub InRange : File → Type 0
InRange (snapshot_file generation index) = index ≤ max_int
InRange (segment_file pos) = (pos.index ≤ max_int) × (pos.offset ≤ max_int)

-- A name that `path.Join` and `filepath.Join` leave as it is: a generation that is none, as `..` or
-- one with a slash, names a place outside its own directory.
unfoldable pub has_slash : Text → Bool
has_slash [] = false
has_slash (ch ∷ s) = ch == b'/' || has_slash s

abbrev pub is_name : Text → Bool
is_name [] = false
is_name (a ∷ []) = not (a == b'.') && not (has_slash (a ∷ []))
is_name (a ∷ b ∷ []) = not (a == b'.' && b == b'.') && not (has_slash (a ∷ b ∷ []))
is_name (a ∷ b ∷ c ∷ s) = not (has_slash (a ∷ b ∷ c ∷ s))

abbrev pub IsName : Text → Type 0
IsName s = is_name s ≡ true

-- A call that removes or writes something leaves all other files as they are, whether it succeeds or
-- not, a listing of a generation is of that generation, and the generations listed are names; all of
-- this for generations that are names. `Hits a b` says that removing the
-- generation `a` may concern the generation `b`.
pub record CarefulBut (Hits : Text → Text → Type 0) (C : RemoteClient) : Type 0 where
  pub listed_generations :
      (s : C.State) (a : List Text) → (C.reads s).generations ≡ ok a → All IsName a
  pub listed_snapshots :
      (s : C.State) (generation : Text) (itr : Listing SnapshotInfo)
      → (C.reads s).snapshots generation ≡ ok itr
      → All (λ i. (i.generation ≡ generation) × (i.index ≤ max_int)) itr.items
  pub listed_segments :
      (s : C.State) (generation : Text) (itr : Listing WalSegmentInfo)
      → (C.reads s).wal_segments generation ≡ ok itr
      → All (λ i. (i.generation ≡ generation) × InRange (segment_file (segment_pos i))) itr.items
  pub other_generation :
      (s : C.State) (generation : Text) (file : File)
      → IsName generation
      → IsName (file_generation file)
      → (Hits generation (file_generation file) → ⊥)
      → read_file (C.reads (C.delete_generation generation s).1) file ≡ read_file (C.reads s) file
  pub other_snapshot :
      (s : C.State) (generation : Text) (index : ℕ) (file : File)
      → IsName generation
      → IsName (file_generation file)
      → index ≤ max_int
      → InRange file
      → (file ≡ snapshot_file generation index → ⊥)
      → read_file (C.reads (C.delete_snapshot generation index s).1) file
        ≡ read_file (C.reads s) file
  pub other_segments :
      (s : C.State) (a : List Pos) (file : File)
      → IsName (file_generation file)
      → All (λ (p : Pos). IsName p.generation) a
      → InRange file
      → All (λ p. InRange (segment_file p) × (file ≡ segment_file p → ⊥)) a
      → read_file (C.reads (C.delete_wal_segments a s).1) file ≡ read_file (C.reads s) file
  pub written :
      (s : C.State) (generation : Text) (index : ℕ) (reader : Result (List ℕ)) (file : File)
      → IsName generation
      → IsName (file_generation file)
      → index ≤ max_int
      → InRange file
      → (file ≡ snapshot_file generation index → ⊥)
      → read_file (C.reads (C.write_snapshot generation index reader s).1) file
        ≡ read_file (C.reads s) file

abbrev pub Careful : RemoteClient → Type 0
Careful = CarefulBut (λ generation other. other ≡ generation)
