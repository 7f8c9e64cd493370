-- ===== src/Db/Close/Complete.antt =====
-- That a replica has all segments of the shadow WAL behind a `Close` without an error.
use litestream.Prelude.{
  ℕ, ◌≡◌, sym, subst, ap, ◌∙◌, ◌⊎◌, inl, inr, Bool, true, false, none, some, List, [], ◌∷◌, ◌++◌,
  map, Error, Result, ok, err, All,
}
use litestream.Pos.{Pos, Comparison, before, same, after, compare_pos}
use litestream.Client.{WalSegmentInfo, Time, segment_pos}
use litestream.Client.Index.{Any}
use litestream.Db.{Db}
use litestream.Db.Disk.{Lz4, Disk, read_segment}
use litestream.Db.Open.{Handles}
use litestream.Db.Listing.{pos_at, listed_segments}
use litestream.Db.Listing.Lists.{readable, listed_segments-InOrder}
use litestream.Db.Sync.Open.{Valid, IsRandom}
use litestream.Db.Close.{Member, Steps, ClosedDb, synced, close}
use litestream.Db.Close.Closed.{MemberSent, members_after, close-IsClosed}
use litestream.Replica.{Chunk}
use litestream.Replica.Group.{all_segments, unseen, unless_after, Comparison-cases}
use litestream.Replica.Position.{calc_pos}
use litestream.Replica.Snapshot.{open_iterator}
use litestream.Replica.Snapshot.CaughtUp.{StartsAt}
use litestream.Replica.Sync.{Chain, write_of}

further :
    {C : Type 0} (P : WalSegmentInfo → Type 0) (v : Result Comparison) (i : WalSegmentInfo)
    (rest : List WalSegmentInfo)
    → C ⊎ Any P rest
    → C ⊎ Any P (unless_after v i rest)
further P (ok after) i rest h = h
further P (ok before) i rest h = elim h [ inl c ↦ inl c | inr k ↦ inr (inr k) ]
further P (ok same) i rest h = elim h [ inl c ↦ inl c | inr k ↦ inr (inr k) ]
further P (err e) i rest h = elim h [ inl c ↦ inl c | inr k ↦ inr (inr k) ]

-- A listed segment is not passed over, unless the start is behind it.
unseen-Any :
    (start p : Pos) (infos : List WalSegmentInfo)
    → Any (λ i. segment_pos i ≡ p) infos
    → (compare_pos start p ≡ ok after) ⊎ Any (λ i. segment_pos i ≡ p) (unseen start infos)
unseen-Any start p [] h = elim h [ ]
unseen-Any start p (i ∷ infos) (inl e) =
    elim (Comparison-cases (compare_pos start (segment_pos i))) [
      | inl (x, q) ↦ rw q (inr (inl e))
      | inr (inl q) ↦ inl (subst (λ p. compare_pos start p ≡ ok after) e q)
      | inr (inr (inl q)) ↦ rw q (inr (inl e))
      | inr (inr (inr q)) ↦ rw q (inr (inl e))
    ]
unseen-Any start p (i ∷ infos) (inr h) =
    further (λ i. segment_pos i ≡ p) _ i (unseen start infos) (unseen-Any start p infos h)

module _ (lz4 : Lz4) (db : Db) (disk : Disk) where
  -- The last sync has written groups from the end of what the client lists on, and the segment at
  -- the position is in one of them or before that end.
  abbrev pub HasSent : Pos → Member → Type 0
  HasSent p m =
      let ((_, r), s) = synced lz4 db disk m in
      (start : Pos) × (calc_pos lz4 (m.client.reads s) db.pos.generation ≡ ok start)
      × ((done : List (Chunk × List ℕ)) × (r.writes
            ≡ m.replica.writes ++ map (write_of lz4 disk) done)
          × Chain lz4 disk start done r.pos
          × ((compare_pos start p ≡ ok after)
              ⊎ Any (λ i. segment_pos i ≡ p)
                  (all_segments (map (λ (d : Chunk × List ℕ). d.0) done))))

  -- Where the directories can be read, and the shadow WAL has the segment.
  MemberSent-HasSent :
      (m : Member) (times : Pos → Time) (p : Pos) (rows : List WalSegmentInfo)
      → m.listing ≡ readable times
      → listed_segments (readable times) db.pos.generation disk.segments ≡ ok rows
      → Any (λ i. segment_pos i ≡ p) rows
      → MemberSent lz4 db disk m
      → HasSent p m
  MemberSent-HasSent m times p rows l q there
        (_, (new, infos, start, opened, starts, (done, w, chain, all))) =
      let listed : listed_segments m.listing db.pos.generation disk.segments ≡ ok rows =
        ap (λ a. listed_segments a db.pos.generation disk.segments) l ∙ q in
      let same_open : ◌≡◌ {A = Result (Bool × List WalSegmentInfo)} (ok (new, infos))
          (ok (true, rows)) =
        sym opened ∙ ap (open_iterator m.client db.pos.generation none) listed in
      let is_new : new ≡ true = cc in
      let same_infos : infos ≡ rows = cc in
      let ((_, _), s) = synced lz4 db disk m in
      let begins =
        subst (λ b. StartsAt m.client lz4 m.faults disk b db.pos.generation s m.replica start)
          is_new starts in
      (
        start,
        begins,
        (
          done,
          w,
          chain,
          subst (λ a. (compare_pos start p ≡ ok after) ⊎ Any (λ i. segment_pos i ≡ p) a)
              (ap (unseen start) (sym same_infos) ∙ sym all) (unseen-Any start p rows there),
        ),
      )

  all-HasSent :
      (times : Pos → Time) (p : Pos) (rows : List WalSegmentInfo) (members : List Member)
      → All (λ m. m.listing ≡ readable times) members
      → listed_segments (readable times) db.pos.generation disk.segments ≡ ok rows
      → Any (λ i. segment_pos i ≡ p) rows
      → All (MemberSent lz4 db disk) members
      → All (HasSent p) members
  all-HasSent times p rows [] l q there h = tt
  all-HasSent times p rows (m ∷ members) l q there h = (
    MemberSent-HasSent m times p rows l.0 q there h.0,
    all-HasSent times p rows members l.1 q there h.1,
  )

module _ (lz4 : Lz4) (c : Steps) (h : Handles) (members : List Member) (times : Pos → Time)
    (index offset : ℕ) where
  abbrev at_position : Db → Pos
  at_position db = pos_at db.pos.generation index offset

  -- Nothing of the shadow WAL at the position, or all replicas have it, or there is an error.
  abbrev pub IsComplete : ClosedDb → Type 0
  IsComplete x =
      ((e : Error) × (x.error ≡ some e))
      ⊎ ((read_segment (at_position x.db) x.disk.segments ≡ none)
          ⊎ All (HasSent lz4 x.db x.disk (at_position x.db)) members)

  sent-IsComplete :
      (x : ClosedDb)
      → h.db ≡ true
      → All (λ m. m.listing ≡ readable times) members
      → (h.db ≡ false)
        ⊎ ((e : Error) × (x.error ≡ some e))
        ⊎ All (MemberSent lz4 x.db x.disk) members
      → IsComplete x
  sent-IsComplete x opened l (inl closed) = cc
  sent-IsComplete x opened l (inr (inl failed)) = inl failed
  sent-IsComplete x opened l (inr (inr sent)) =
      let (rows, q, _, _, there) =
        listed_segments-InOrder times x.db.pos.generation x.disk.segments index offset in
      elim there [
        | inl nothing ↦ inr (inl nothing)
        | inr found ↦
            inr (
              inr
                (all-HasSent lz4 x.db x.disk times (at_position x.db) rows members l q found sent))
      ]

  -- `Close` of a database that was initialized, where the directories of the shadow WAL can be read:
  -- it returns an error, or each segment that the shadow WAL then has of the generation is behind it on
  -- every replica, in a group that its last sync has written without a gap from the end of what its
  -- client lists on, or before that end. The page size is a multiple of 8, the position zero or in a
  -- generation with a known byte order, and new names have eight random bytes.
  pub close-IsComplete :
      (n : ℕ) (db : Db) (disk : Disk)
      → All IsRandom c.worlds
      → Valid n db disk
      → h.db ≡ true
      → All (λ m. m.listing ≡ readable times) members
      → (x : ClosedDb) × (close lz4 c h members db disk ≡ some x)
        × (x.members ≡ members_after lz4 x.db x.disk h.db members)
        × IsComplete x
  close-IsComplete n db disk random valid opened l =
      let (x, q, (_, _, left, sent)) = close-IsClosed lz4 c h members n db disk random valid in
      (x, q, left, sent-IsComplete x opened l sent)
