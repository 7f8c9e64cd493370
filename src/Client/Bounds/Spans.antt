-- ===== src/Client/Bounds/Spans.antt =====
-- The time bounds of a generation's snapshots.
use litestream.Prelude.{
  ℕ, suc, ◌≤◌, ◌<◌, ◌≡◌, refl, sym, ap, ◌⊎◌, inl, inr, false, ◌==◌, ltb, if◌then◌else◌, List, [],
  ◌∷◌, ok, All, Bool-cases, arith, length,
}
use litestream.Text.{Text}
use litestream.Client.Infos.{SnapshotInfo, ReplicaClient, Time}
use litestream.Client.Index.{Any, listing}
use litestream.Client.Bounds.{widen, bounds_loop, snapshot_time_bounds}

module _ {A : Type 0} (of : A → Time) where
  -- Bounds that the loop ends with, from those that it has.
  record Widened (lo hi : Time) (infos : List A) : Type 0 where
    first : Time
    last : Time
    returns : bounds_loop of (lo, hi) infos ≡ (first, last)
    lower : first ≤ lo
    upper : hi ≤ last
    within : All (λ i. (first ≤ of i) × (of i ≤ last)) infos
    from_first : (first ≡ lo) ⊎ Any (λ i. of i ≡ first) infos
    from_last : (last ≡ hi) ⊎ Any (λ i. of i ≡ last) infos

  widen_lem :
      (lo hi t : Time)
      → 0 < lo
      → 0 < hi
      → widen (lo, hi) (t, t) ≡ ((if ltb t lo then t else lo), (if ltb hi t then t else hi))
  unfolding widen
  widen_lem lo hi t h k = ground arith

  widens :
      (lo hi : Time) (infos : List A)
      → 0 < lo
      → 0 < hi
      → All (λ i. 0 < of i) infos
      → Widened lo hi infos
  unfolding bounds_loop
  widens lo hi [] h k set = record {
    first = lo;
    last = hi;
    returns = refl;
    lower = omega arith;
    upper = omega arith;
    within = tt;
    from_first = inl refl;
    from_last = inl refl;
  }
  widens lo hi (i ∷ infos) h k set =
      let lo' : Time = if ltb (of i) lo then of i else lo in
      let hi' : Time = if ltb hi (of i) then of i else hi in
      let w = widens lo' hi' infos (ground (arith, set.0)) (ground (arith, set.0)) set.1 in
      record {
        first = w.first;
        last = w.last;
        returns = rw (widen_lem lo hi (of i) h k) w.returns;
        lower = ground (arith, w.lower);
        upper = ground (arith, w.upper);
        within = ((ground (arith, w.lower), ground (arith, w.upper)), w.within);
        from_first = elim w.from_first [
          | inr later ↦ inr (inr later)
          | inl same ↦ elim (Bool-cases (ltb (of i) lo)) [
            | inl less ↦ inr (inl (sym (rw less at same)))
            | inr more ↦ inl (rw more at same)
          ]
        ];
        from_last = elim w.from_last [
          | inr later ↦ inr (inr later)
          | inl same ↦ elim (Bool-cases (ltb hi (of i))) [
            | inl more ↦ inr (inl (sym (rw more at same)))
            | inr less ↦ inl (rw less at same)
          ]
        ];
      }

-- For snapshots that can be listed, at least one, and none created at the zero time:
-- `SnapshotTimeBounds` returns the times at which the first and the last of them were created.
pub snapshot_time_bounds-Spans :
    (client : ReplicaClient) (generation : Text) (s : SnapshotInfo) (a : List SnapshotInfo)
    → client.snapshots generation ≡ ok (listing (s ∷ a))
    → All (λ (i : SnapshotInfo). 0 < i.created_at) (s ∷ a)
    → (first : Time) × (last : Time) × (snapshot_time_bounds client generation ≡ ok (first, last))
      × Any (λ (i : SnapshotInfo). i.created_at ≡ first) (s ∷ a)
      × Any (λ (i : SnapshotInfo). i.created_at ≡ last) (s ∷ a)
      × All (λ (i : SnapshotInfo). (first ≤ i.created_at) × (i.created_at ≤ last)) (s ∷ a)
unfolding snapshot_time_bounds
snapshot_time_bounds-Spans client generation s a e set =
    let w =
      widens (λ (i : SnapshotInfo). i.created_at) s.created_at s.created_at a set.0 set.0 set.1 in
    (
      w.first,
      w.last,
      rw (e, some_items (length a)) (ap ok (unfold bounds_loop in rw start w.returns)),
      started w.from_first,
      started w.from_last,
      ((w.lower, w.upper), w.within),
    )
  where
    some_items : (n : ℕ) → (suc n == 0) ≡ false
    some_items n = ground arith

    start : widen (0, 0) (s.created_at, s.created_at) ≡ (s.created_at, s.created_at)
    start = unfold widen in refl

    started :
        {t : Time}
        → (t ≡ s.created_at) ⊎ Any (λ (i : SnapshotInfo). i.created_at ≡ t) a
        → Any (λ (i : SnapshotInfo). i.created_at ≡ t) (s ∷ a)
    started (inl e) = inl (sym e)
    started (inr k) = inr k
