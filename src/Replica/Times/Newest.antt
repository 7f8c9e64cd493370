-- ===== src/Replica/Times/Newest.antt =====
-- What `SnapshotIndexAt` finds.
use litestream.Prelude.{
  ℕ, ◌≤◌, ◌<◌, ◌≡◌, refl, sym, ap, ◌∙◌, subst, ◌⊎◌, inl, inr, true, false, none, some, List, [],
  ◌∷◌, no_snapshots, Result, ok, err, ltb, All, arith, Bool-cases,
}
use litestream.Text.{Text}
use litestream.Client.Infos.{SnapshotInfo, ReplicaClient, Time}
use litestream.Client.Index.{Any}
use litestream.Replica.Times.{
  in_time, newer_snapshot, index_at_loop, found_index, snapshot_index_at,
}

newer_lem :
    (index : ℕ) (t : Time) (s : SnapshotInfo)
    → ltb t s.created_at ≡ true
    → newer_snapshot (some index, t) s ≡ (some s.index, s.created_at)
newer_lem index t s h = ground arith

newer_keeps :
    (index : ℕ) (t : Time) (s : SnapshotInfo)
    → 0 < t
    → ltb t s.created_at ≡ false
    → newer_snapshot (some index, t) s ≡ (some index, t)
newer_keeps index t s h k = ground arith

abbrev Good : Time → SnapshotInfo → ℕ × Time → Type 0
Good timestamp s best = (s.index ≡ best.0) × (s.created_at ≡ best.1) × (in_time timestamp s ≡ true)

-- The loop from a snapshot that is already known.
record Raised (timestamp : Time) (index : ℕ) (t : Time) (a : List SnapshotInfo) : Type 0 where
  best : ℕ × Time
  returns : index_at_loop timestamp (some index, t) a ≡ (some best.0, best.1)
  later : t ≤ best.1
  from : (best ≡ (index, t)) ⊎ Any (λ s. Good timestamp s best) a
  newest : All (λ s. (in_time timestamp s ≡ false) ⊎ (s.created_at ≤ best.1)) a

raise :
    (timestamp : Time) (index : ℕ) (t : Time) (a : List SnapshotInfo)
    → 0 < t
    → Raised timestamp index t a
unfolding index_at_loop
raise timestamp index t [] h = record {
  best = (index, t);
  returns = refl;
  later = omega arith;
  from = inl refl;
  newest = tt;
}
raise timestamp index t (s ∷ a) h = elim (Bool-cases (in_time timestamp s)) [
  | inr skipped ↦
      let r = raise timestamp index t a h in
      record {
        best = r.best;
        returns = rw skipped r.returns;
        later = r.later;
        from = further r.from;
        newest = (inl skipped, r.newest);
      }
  | inl taken ↦ elim (Bool-cases (ltb t s.created_at)) [
    | inl newer_one ↦
        let above : t < s.created_at = ground arith in
        let positive : 0 < s.created_at = omega arith in
        let r = raise timestamp s.index s.created_at a positive in
        record {
          best = r.best;
          returns =
              rw taken
                (ap (λ b. index_at_loop timestamp b a) (newer_lem index t s newer_one) ∙ r.returns);
          later = omega (arith, r.later);
          from = inr (taken_or taken r.from);
          newest = (inr (omega (arith, r.later)), r.newest);
        }
    | inr older ↦
        let not_above : s.created_at ≤ t = ground arith in
        let r = raise timestamp index t a h in
        record {
          best = r.best;
          returns =
              rw taken
                (ap (λ b. index_at_loop timestamp b a) (newer_keeps index t s h older) ∙ r.returns);
          later = r.later;
          from = further r.from;
          newest = (inr (omega (arith, r.later, not_above)), r.newest);
        }
  ]
]
  where
    further :
        {best : ℕ × Time}
        → (best ≡ (index, t)) ⊎ Any (λ s. Good timestamp s best) a
        → (best ≡ (index, t)) ⊎ Any (λ s. Good timestamp s best) (s ∷ a)
    further (inl e) = inl e
    further (inr e) = inr (inr e)

    taken_or :
        {best : ℕ × Time}
        → in_time timestamp s ≡ true
        → (best ≡ (s.index, s.created_at)) ⊎ Any (λ s. Good timestamp s best) a
        → Any (λ s. Good timestamp s best) (s ∷ a)
    taken_or taken (inl e) = inl (sym (ap (λ b. b.0) e), sym (ap (λ b. b.1) e), taken)
    taken_or taken (inr e) = inr e

-- What is found is the newest snapshot of those in time; nothing is found where there is none.
abbrev pub Newest : Time → List SnapshotInfo → Result ℕ → Type 0
Newest timestamp a (err e) = (e ≡ no_snapshots) × All (λ s. in_time timestamp s ≡ false) a
Newest timestamp a (ok index) =
    (t : Time) × Any (λ s. Good timestamp s (index, t)) a
    × All (λ s. (in_time timestamp s ≡ false) ⊎ (s.created_at ≤ t)) a

newer_first : (s : SnapshotInfo) → newer_snapshot (none, 0) s ≡ (some s.index, s.created_at)
newer_first s = refl

skipped_too :
    (timestamp : Time) (s : SnapshotInfo) (a : List SnapshotInfo) (r : Result ℕ)
    → in_time timestamp s ≡ false
    → Newest timestamp a r
    → Newest timestamp (s ∷ a) r
skipped_too timestamp s a (err e) h n = (n.0, (h, n.1))
skipped_too timestamp s a (ok index) h n = (n.0, inr n.1, (inl h, n.2))

index_at_loop-Newest :
    (timestamp : Time) (a : List SnapshotInfo)
    → All (λ s. 0 < s.created_at) a
    → Newest timestamp a (found_index (index_at_loop timestamp (none, 0) a).0)
unfolding index_at_loop
index_at_loop-Newest timestamp [] h = (refl, tt)
index_at_loop-Newest timestamp (s ∷ a) h = elim (Bool-cases (in_time timestamp s)) [
  | inr skipped ↦
      let step : index_at_loop timestamp (none, 0) (s ∷ a) ≡ index_at_loop timestamp (none, 0) a =
        rw skipped refl in
      subst (λ b. Newest timestamp (s ∷ a) (found_index b.0)) (sym step)
        (skipped_too timestamp s a _ skipped (index_at_loop-Newest timestamp a h.1))
  | inl taken ↦
      let r = raise timestamp s.index s.created_at a h.0 in
      let step : index_at_loop timestamp (none, 0) (s ∷ a) ≡ (some r.best.0, r.best.1) =
        rw taken r.returns in
      subst (λ b. Newest timestamp (s ∷ a) (found_index b.0)) (sym step)
        (r.best.1, first taken r.from, (inr r.later, r.newest))
]
  where
    first :
        {best : ℕ × Time}
        → in_time timestamp s ≡ true
        → (best ≡ (s.index, s.created_at)) ⊎ Any (λ s. Good timestamp s best) a
        → Any (λ s. Good timestamp s best) (s ∷ a)
    first taken (inl e) = inl (sym (ap (λ b. b.0) e), sym (ap (λ b. b.1) e), taken)
    first taken (inr e) = inr e

-- For snapshots that can be listed and were not created at the zero time: SnapshotIndexAt returns
-- the index of the newest snapshot that was not created after the timestamp, or of the newest one
-- where the timestamp is zero, and ErrNoSnapshots exactly where there is no such snapshot.
pub snapshot_index_at-Newest :
    (client : ReplicaClient) (generation : Text) (timestamp : Time) (a : List SnapshotInfo)
    → client.snapshots generation ≡ ok (record { items = a; close = none })
    → All (λ s. 0 < s.created_at) a
    → Newest timestamp a (snapshot_index_at client generation timestamp)
unfolding snapshot_index_at
snapshot_index_at-Newest client generation timestamp a listed h =
    rw listed (index_at_loop-Newest timestamp a h)
