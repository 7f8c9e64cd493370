-- ===== src/Restore/Command/Latest.antt =====
-- What a restore without an index and a timestamp chooses, and what it leaves at the output path.
use litestream.Prelude.{
  ℕ, ◌≤◌, ◌<◌, true, wrapping, ◌≡◌, refl, sym, subst, ap, ◌∙◌, ◌⊎◌, none, some, Option, List, [],
  ◌∷◌, ok, err, Error, Result, All, arith,
}
use litestream.Text.{Text, text_eq, text_eq_refl}
use litestream.Client.{SnapshotInfo, WalSegmentInfo, ReplicaClient, Time}
use litestream.Client.Index.{Any, listing, find_max_index-IsMax}
use litestream.Client.Search.{find_max_index_by_generation, find_snapshot_for_index}
use litestream.Client.Latest.{Found, Found-above, find_snapshot_for_index-Found}
use litestream.Client.Bounds.{find_latest_generation}
use litestream.Client.Bounds.Newest.{Updated, NotAfter, find_latest_generation-NotAfter}
use litestream.Config.Url.{Library}
use litestream.Config.Clients.{HostParts}
use litestream.Config.{Replica}
use litestream.Db.Disk.{Lz4}
use litestream.Downloader.{DownloadFaults}
use litestream.Restore.{Output, RestoreFaults}
use litestream.Restore.Restored.{Restored, restore-Restored}
use litestream.Restore.Command.{
  RestoreCommand, chosen, choose, choose_generation, choose_target, given_or_max, run_on,
  restore_choice,
}

-- The snapshots with an index at or below one that none is above are all of them.
at_most :
    (target b : ℕ) (a : List SnapshotInfo)
    → All (λ (s : SnapshotInfo). s.index ≤ target) a
    → All (λ (s : SnapshotInfo). s.index ≤ target → s.index ≤ b) a
    → All (λ (s : SnapshotInfo). s.index ≤ b) a
at_most target b [] h k = tt
at_most target b (s ∷ a) h k = (k.0 h.0, at_most target b a h.1 k.1)

-- The indexes of a restore of everything: `target` is the highest of all snapshots and segments, and
-- `snapshot` that of all snapshots.
pub record Newest (a : List SnapshotInfo) (b : List WalSegmentInfo) (snapshot target : ℕ)
    : Type 0 where
  pub listed :
      Any (λ (i : SnapshotInfo). i.index ≡ target) a
      ⊎ Any (λ (w : WalSegmentInfo). w.index ≡ target) b
  pub snapshots_below : All (λ (i : SnapshotInfo). i.index ≤ target) a
  pub segments_below : All (λ (w : WalSegmentInfo). w.index ≤ target) b
  pub is_snapshot : Any (λ (i : SnapshotInfo). i.index ≡ snapshot) a
  pub last_snapshot : All (λ (i : SnapshotInfo). i.index ≤ snapshot) a

module _ (client : ReplicaClient) (g : Text) (s : SnapshotInfo) (a : List SnapshotInfo)
    (b : List WalSegmentInfo) where
  abbrev Indexed : Type 0
  Indexed =
      (snapshot : ℕ) × (target : ℕ) × (find_max_index_by_generation client g ≡ ok target)
      × (find_snapshot_for_index client g target ≡ ok snapshot)
      × Newest (s ∷ a) b snapshot target

  abbrev IsHighest : ℕ → Type 0
  IsHighest target =
      (Any (λ (i : SnapshotInfo). i.index ≡ target) (s ∷ a)
        ⊎ Any (λ (w : WalSegmentInfo). w.index ≡ target) b)
      × All (λ (i : SnapshotInfo). i.index ≤ target) (s ∷ a)
      × All (λ (w : WalSegmentInfo). w.index ≤ target) b

  -- There is a snapshot at or below the highest index.
  with_snapshot :
      (target : ℕ) (r : Result ℕ)
      → IsHighest target
      → find_max_index_by_generation client g ≡ ok target
      → find_snapshot_for_index client g target ≡ r
      → Found target (s ∷ a) r
      → Indexed
  with_snapshot target (ok snapshot) (listed, below, below') m e l = (
    snapshot,
    target,
    m,
    e,
    record {
      listed = listed;
      snapshots_below = below;
      segments_below = below';
      is_snapshot = l.1;
      last_snapshot = at_most target snapshot (s ∷ a) below l.2;
    },
  )
  with_snapshot target (err e) (listed, below, below') m q l =
      elim (contradiction below.0 (Found-above target (s ∷ a) e l).0) [ ]
    where
      contradiction : s.index ≤ target → target < s.index → ⊥
      contradiction h k = omega arith

  indexed :
      client.snapshots g ≡ ok (listing (s ∷ a)) → client.wal_segments g ≡ ok (listing b) → Indexed
  indexed e f =
      let (target, m, listed, below, below') = find_max_index-IsMax client g s a b e f in
      with_snapshot target (find_snapshot_for_index client g target) (listed, below, below') m refl
        (find_snapshot_for_index-Found client g target (s ∷ a) e)

module _ (c : RestoreCommand) (client : ReplicaClient) (g : Text) where
  generation_chosen :
      c.generation ≡ []
      → find_latest_generation client ≡ ok g
      → choose_generation c client ≡ ok (some g)
  unfolding choose_generation
  generation_chosen any l =
      let blank : text_eq c.generation [] ≡ true = ap (λ t. text_eq t []) any ∙ text_eq_refl [] in
      rw (blank, l) refl

  target_chosen :
      (target : ℕ)
      → c.target_index ≡ none
      → find_max_index_by_generation client g ≡ ok target
      → choose_target c 0 client g ≡ ok target
  unfolding choose_target
  target_chosen target all m =
      ap (given_or_max client g) all ∙ ap (wrapping "cannot determine latest index in generation") m

  choose-chosen :
      (snapshot target : ℕ)
      → c.generation ≡ []
      → c.target_index ≡ none
      → find_latest_generation client ≡ ok g
      → find_max_index_by_generation client g ≡ ok target
      → find_snapshot_for_index client g target ≡ ok snapshot
      → choose c 0 client ≡ ok (chosen g snapshot target)
  unfolding choose
  choose-chosen snapshot target any all l m q =
      rw (generation_chosen any l, target_chosen target all m, q) refl

module _ (lib : Library) (parse_host : Text → HostParts) (connect : Replica → ReplicaClient)
    (lz4 : Lz4) (faults : RestoreFaults) (apply : List ℕ → List ℕ → Result (List ℕ))
    (downloads : DownloadFaults) (stat : Option Error) where
  -- A restore without a generation, an index and a timestamp, of a replica whose latest generation
  -- can be listed and has a snapshot: no generation was updated later, and what is restored goes from the last snapshot
  -- to the highest index of all snapshots and segments. The output path is as before where the restore
  -- fails; where it succeeds it was free, and holds that snapshot with all downloaded WALs from its
  -- index on applied. If the two indexes are one, a WAL that is not found ends this.
  pub run_on-Newest :
      (c : RestoreCommand) (client : ReplicaClient) (generations : List Text) (g : Text)
      (s : SnapshotInfo) (a : List SnapshotInfo) (b : List WalSegmentInfo) (out : Output)
      → c.generation ≡ []
      → c.target_index ≡ none
      → client.generations ≡ ok generations
      → find_latest_generation client ≡ ok g
      → client.snapshots g ≡ ok (listing (s ∷ a))
      → client.wal_segments g ≡ ok (listing b)
      → ((latest : Time) × Any (λ x. x ≡ g) generations
          × Updated client latest g
          × All (NotAfter client latest) generations)
        × (snapshot : ℕ) × (target : ℕ) × Newest (s ∷ a) b snapshot target
        × Restored lz4 client apply downloads g faults c.parallelism snapshot target out
            (run_on lib parse_host connect lz4 faults apply downloads stat none c 0 client out)
  unfolding run_on
  run_on-Newest c client generations g s a b out any all gs l e f =
      let (snapshot, target, m, q, newest) = indexed client g s a b e f in
      (
        find_latest_generation-NotAfter client generations g gs l,
        snapshot,
        target,
        newest,
        subst
            (λ r. Restored lz4 client apply downloads g faults c.parallelism snapshot target out (
              restore_choice lib parse_host connect lz4 faults apply downloads stat none c client
                out r))
            (sym (choose-chosen c client g snapshot target any all l m q))
            (restore-Restored lz4 client apply downloads g faults c.parallelism snapshot target out
              c.output_path),
      )
