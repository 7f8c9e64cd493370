-- ===== src/Client/Latest.antt =====
-- `FindSnapshotForIndex` on every listing, and what the searches by timestamp return where no
-- snapshot is old enough.
use litestream.Prelude.{
  ℕ, suc, ◌≤◌, ◌<◌, ◌≡◌, refl, sym, ◌≢◌, ◌⊎◌, inl, inr, false, Option, none, some, List, [], ◌∷◌,
  no_snapshots, no_generation, no_wal_segments, restart_generation, eof, unexpected_eof, canceled,
  not_exist, wal_not_found, message, wrap, Error, subst, Result, ok, err, ltb, leb, All, Bool-cases,
  arith, lt→ltb, length, ◌==◌, ap,
}
use litestream.Text.{Text}
use litestream.Client.Infos.{SnapshotInfo, ReplicaClient, Time}
use litestream.Client.Search.{
  snapshot_for_index_loop, or_missing, max_loop, find_snapshot_for_index,
  find_snapshot_index_by_timestamp,
}
use litestream.Client.Index.{Any, listing}

-- The highest index at or below `index`, where there is one.
abbrev pub Latest : ℕ → List SnapshotInfo → Option ℕ → Type 0
Latest index a none = All (λ (s : SnapshotInfo). index < s.index) a
Latest index a (some best) =
    (best ≤ index)
    × Any (λ (s : SnapshotInfo). s.index ≡ best) a
    × All (λ (s : SnapshotInfo). s.index ≤ index → s.index ≤ best) a

-- The loop from an index that is already known.
record Raised (index best : ℕ) (a : List SnapshotInfo) : Type 0 where
  result : ℕ
  returns : snapshot_for_index_loop index (some best) a ≡ some result
  below : result ≤ index
  raised : best ≤ result
  from : (result ≡ best) ⊎ Any (λ (s : SnapshotInfo). s.index ≡ result) a
  highest : All (λ (s : SnapshotInfo). s.index ≤ index → s.index ≤ result) a

raise : (index best : ℕ) (a : List SnapshotInfo) → best ≤ index → Raised index best a
unfolding snapshot_for_index_loop
raise index best [] h = record {
  result = best;
  returns = refl;
  below = h;
  raised = omega arith;
  from = inl refl;
  highest = tt;
}
raise index best (s ∷ a) h = elim (Bool-cases (ltb index s.index)) [
  | inl above ↦
      let r = raise index best a h in
      record {
        result = r.result;
        returns = rw above r.returns;
        below = r.below;
        raised = r.raised;
        from = later r.from;
        highest = ((λ k. ground arith), r.highest);
      }
  | inr below ↦ elim (Bool-cases (leb best s.index)) [
    | inl more ↦
        let r = raise index s.index a (ground arith) in
        record {
          result = r.result;
          returns = rw (below, more) r.returns;
          below = r.below;
          raised = ground (arith, r.raised);
          from = inr (now r.from);
          highest = ((λ k. r.raised), r.highest);
        }
    | inr less ↦
        let r = raise index best a h in
        record {
          result = r.result;
          returns = rw (below, less) r.returns;
          below = r.below;
          raised = r.raised;
          from = later r.from;
          highest = ((λ k. ground (arith, r.raised)), r.highest);
        }
  ]
]
  where
    later : {P Q R : Type 0} → P ⊎ R → P ⊎ (Q ⊎ R)
    later (inl p) = inl p
    later (inr r) = inr (inr r)

    now : {m n : ℕ} {R : Type 0} → (m ≡ n) ⊎ R → (n ≡ m) ⊎ R
    now (inl p) = inl (sym p)
    now (inr r) = inr r

loop-Latest :
    (index : ℕ) (a : List SnapshotInfo) → Latest index a (snapshot_for_index_loop index none a)
unfolding snapshot_for_index_loop
loop-Latest index [] = tt
loop-Latest index (s ∷ a) = elim (Bool-cases (ltb index s.index)) [
  | inl above ↦
      rw above (skip (snapshot_for_index_loop index none a) (ground arith) (loop-Latest index a))
  | inr below ↦
      let r = raise index s.index a (ground arith) in
      rw (below, r.returns) (r.below, now r.from, ((λ k. r.raised), r.highest))
]
  where
    now : {m n : ℕ} {R : Type 0} → (m ≡ n) ⊎ R → (n ≡ m) ⊎ R
    now (inl p) = inl (sym p)
    now (inr r) = inr r

    skip : (o : Option ℕ) → index < s.index → Latest index a o → Latest index (s ∷ a) o
    skip none h l = (h, l)
    skip (some b) h l = (l.0, inr l.1, ((λ k. omega arith), l.2))

-- What FindSnapshotForIndex says of the snapshots that the client lists.
abbrev pub Found : ℕ → List SnapshotInfo → Result ℕ → Type 0
Found index a (ok best) = Latest index a (some best)
Found index a (err no_snapshots) = a ≡ []
Found index a (err e) = (a ≢ []) × Latest index a none

-- Where there is an error, every snapshot is above the index.
pub Found-above :
    (index : ℕ) (a : List SnapshotInfo) (e : Error)
    → Found index a (err e)
    → All (λ (s : SnapshotInfo). index < s.index) a
Found-above index a no_generation h = h.1
Found-above index a no_snapshots h =
    subst (λ b. All (λ (s : SnapshotInfo). index < s.index) b) (sym h) tt
Found-above index a no_wal_segments h = h.1
Found-above index a restart_generation h = h.1
Found-above index a eof h = h.1
Found-above index a unexpected_eof h = h.1
Found-above index a canceled h = h.1
Found-above index a not_exist h = h.1
Found-above index a (wal_not_found n) h = h.1
Found-above index a (message t) h = h.1
Found-above index a (wrap t e) h = h.1

-- Of a listing that can be read, `FindSnapshotForIndex` returns the highest index at or below the
-- given one; the error for no snapshots exactly on an empty listing, and its other error exactly
-- where there are snapshots and all are above the index.
pub find_snapshot_for_index-Found :
    (client : ReplicaClient) (generation : Text) (index : ℕ) (a : List SnapshotInfo)
    → client.snapshots generation ≡ ok (listing a)
    → Found index a (find_snapshot_for_index client generation index)
unfolding find_snapshot_for_index
find_snapshot_for_index-Found client generation index [] e = rw e refl
find_snapshot_for_index-Found client generation index (s ∷ a) e =
    rw (e, some_items (length a))
      (missing (snapshot_for_index_loop index none (s ∷ a)) (loop-Latest index (s ∷ a)))
  where
    some_items : (n : ℕ) → (suc n == 0) ≡ false
    some_items n = ground arith

    missing : (o : Option ℕ) → Latest index (s ∷ a) o → Found index (s ∷ a) (or_missing o)
    missing none l = ((λ z. cc), l)
    missing (some b) l = l

-- Where everything is newer than the timestamp, the index stays 0.
pub none_counts :
    {A : Type 0} (time : A → Time) (index : A → ℕ) (timestamp : Time) (b : List A)
    → All (λ x. timestamp < time x) b
    → max_loop (λ x. ltb timestamp (time x)) index 0 b ≡ 0
unfolding max_loop
none_counts time index timestamp [] h = refl
none_counts time index timestamp (x ∷ b) h =
    rw (lt→ltb timestamp (time x) h.0) (none_counts time index timestamp b h.1)

-- `FindSnapshotIndexByTimestamp` returns index 0, and no error, where there are snapshots but
-- every one of them was created after the timestamp.
pub find_snapshot_index_by_timestamp-too_new :
    (client : ReplicaClient) (generation : Text) (timestamp : Time) (s : SnapshotInfo)
    (a : List SnapshotInfo)
    → client.snapshots generation ≡ ok (listing (s ∷ a))
    → All (λ (i : SnapshotInfo). timestamp < i.created_at) (s ∷ a)
    → find_snapshot_index_by_timestamp client generation timestamp ≡ ok 0
unfolding find_snapshot_index_by_timestamp
find_snapshot_index_by_timestamp-too_new client generation timestamp s a e new =
    rw (e, some_items (length a))
      (ap ok (
        none_counts (λ (info : SnapshotInfo). info.created_at) (λ info. info.index) timestamp
          (s ∷ a) new))
  where
    some_items : (n : ℕ) → (suc n == 0) ≡ false
    some_items n = ground arith
