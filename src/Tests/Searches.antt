-- ===== src/Tests/Searches.antt =====
-- A replica with two snapshots and two WALs.
use litestream.Prelude.{ℕ, List, [], ◌∷◌, not_exist, ok, err}
use litestream.Text.{Text}
use litestream.Client.{ReplicaClient, SnapshotInfo, WalSegmentInfo}
use litestream.Client.Index.{listing}

abbrev pub generation : Text
generation = b'a' ∷ b'1' ∷ []

abbrev pub snapshot : ℕ → ℕ → SnapshotInfo
snapshot index created_at = record {
  generation = generation;
  index = index;
  size = 100;
  created_at = created_at;
}

abbrev pub segment : ℕ → ℕ → ℕ → WalSegmentInfo
segment index offset created_at = record {
  generation = generation;
  index = index;
  offset = offset;
  size = 2;
  created_at = created_at;
}

abbrev pub all_snapshots : List SnapshotInfo
all_snapshots = snapshot 3 50 ∷ snapshot 5 90 ∷ []

abbrev pub all_segments : List WalSegmentInfo
all_segments = segment 3 0 55 ∷ segment 3 2 60 ∷ segment 4 0 70 ∷ []

abbrev pub replica : ReplicaClient
replica = record {
  generations = ok (generation ∷ []);
  snapshots = λ g. ok (listing all_snapshots);
  wal_segments = λ g. ok (listing all_segments);
  wal_segment_reader = λ p. ok (p.index ∷ p.offset ∷ []);
  snapshot_reader = λ g i. err not_exist;
}
