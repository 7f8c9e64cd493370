-- ===== src/Db/Close/Closed.antt =====
-- What `Close` returns, and what it leaves of the handles and of the replicas.
use litestream.Prelude.{
  ℕ, Bool, true, false, ◌≡◌, refl, sym, subst, ap, ◌∙◌, ◌⊎◌, Option, none, some, List, [], ◌∷◌,
  ◌++◌, Error, Result, ok, err, All, if◌then◌else◌, Bool-cases, inl, inr,
}
use mathlib.Core.List.{append_assoc}
use litestream.Pos.{is_zero}
use litestream.Db.{Db}
use litestream.Db.Disk.{Lz4, Disk}
use litestream.Db.Listing.{listed_segments}
use litestream.Db.Open.{Handles}
use litestream.Db.Sync.Open.{Valid, IsRandom}
use litestream.Db.Sync.Safe.{sync_retrying-Synced}
use litestream.Db.Close.{
  Member, Steps, ClosedDb, keep_first, positions, release_read_lock, source_of, synced, member_left,
  sync_member, close_members, close_handles, close,
}
use litestream.Replica.{Replica}
use litestream.Replica.Snapshot.CaughtUp.{CaughtUp, Sent, sync-CaughtUp}

-- The first error of a sequence of steps.
abbrev pub earliest : List (Option Error) → Option Error
earliest [] = none
earliest (none ∷ errors) = earliest errors
earliest (some e ∷ errors) = some e

keep_first-first_error :
    (e e' : Option Error) (errors : List (Option Error))
    → earliest (keep_first e e' ∷ errors) ≡ earliest (e ∷ e' ∷ errors)
unfolding keep_first
keep_first-first_error none e' errors = refl
keep_first-first_error (some e) e' errors = refl

earliest-last :
    (errors : List (Option Error)) (e : Option Error)
    → keep_first (earliest errors) e ≡ earliest (errors ++ e ∷ [])
unfolding keep_first
earliest-last [] none = refl
earliest-last [] (some e) = refl
earliest-last (none ∷ errors) e = earliest-last errors e
earliest-last (some e ∷ errors) e' = refl

earliest-last_two :
    (errors : List (Option Error)) (e e' : Option Error)
    → keep_first (keep_first (earliest errors) e) e' ≡ earliest (errors ++ e ∷ e' ∷ [])
earliest-last_two errors e e' =
    ap (λ x. keep_first x e') (earliest-last errors e)
    ∙ earliest-last (errors ++ e ∷ []) e'
    ∙ ap earliest (append_assoc errors (e ∷ []) (e' ∷ []))

earliest-none : (a b : List (Option Error)) → earliest (a ++ b) ≡ none → All (λ e. e ≡ none) a
earliest-none [] b h = tt
earliest-none (none ∷ a) b h = (refl, earliest-none a b h)
earliest-none (some e ∷ a) b h = cc

module _ (lz4 : Lz4) (db : Db) (disk : Disk) where
  -- The errors of the replicas' last syncs and of closing them, in the order of the replicas.
  abbrev pub member_errors : Bool → List Member → List (Option Error)
  member_errors is_open [] = []
  member_errors is_open (m ∷ members) =
      (sync_member lz4 db disk is_open m).0 ∷ m.close ∷ member_errors is_open members

  abbrev pub members_after : Bool → List Member → List Member
  members_after is_open [] = []
  members_after is_open (m ∷ members) =
      (sync_member lz4 db disk is_open m).1 ∷ members_after is_open members

  -- The replica's last sync had a position of the database, and has sent all that was listed.
  abbrev pub MemberSent : Member → Type 0
  MemberSent m =
      (is_zero db.pos ≡ false)
      × Sent m.client lz4 m.faults disk db.pos none
          (listed_segments m.listing db.pos.generation disk.segments) m.replica
          (synced lz4 db disk m).0.1 (synced lz4 db disk m).1

  close_members_lem :
      (is_open : Bool) (members : List Member) (e : Option Error)
      → close_members lz4 db disk is_open e members
        ≡ (earliest (e ∷ member_errors is_open members), members_after is_open members)
  unfolding close_members
  close_members_lem is_open [] none = refl
  close_members_lem is_open [] (some e) = refl
  close_members_lem is_open (m ∷ members) e =
      let (e', m') = sync_member lz4 db disk is_open m in
      let errors = member_errors is_open members in
      let same =
        (keep_first-first_error (keep_first e e') m.close errors
          ∙ keep_first-first_error e e' (m.close ∷ errors)) in
      rw (close_members_lem is_open members (keep_first (keep_first e e') m.close))
        (λ i. (same i, m' ∷ members_after is_open members))

  Sent-ok :
      (m : Member) (o : (Result (Unit {0}) × Replica) × m.client.State)
      → CaughtUp m.client lz4 m.faults disk db.pos none
          (listed_segments m.listing db.pos.generation disk.segments)
          m.replica
          o
      → (member_left lz4 db disk m o).0 ≡ none
      → (is_zero db.pos ≡ false)
        × Sent m.client lz4 m.faults disk db.pos none
            (listed_segments m.listing db.pos.generation disk.segments)
            m.replica
            o.0.1
            o.1
  Sent-ok m ((err e, r'), s') h q = cc
  Sent-ok m ((ok _, r'), s') h q = h

  all_sent :
      (members : List Member)
      → All (λ e. e ≡ none) (member_errors true members)
      → All MemberSent members
  unfolding sync_member
  all_sent [] h = tt
  all_sent (m ∷ members) h = (
    Sent-ok m (synced lz4 db disk m)
        (sync-CaughtUp m.client lz4 m.faults disk (source_of lz4 db disk m) db.pos none
          (listed_segments m.listing db.pos.generation disk.segments) m.replica m.state)
        h.0,
    all_sent members h.1.1,
  )

release_read_lock_lem :
    (rollback : Option Error) (h : Handles)
    → release_read_lock rollback h ≡ ((if h.rtx then rollback else none), record h { rtx = false })
unfolding release_read_lock
release_read_lock_lem rollback h = elim (Bool-cases h.rtx) [ inl e ↦ rw e refl | inr e ↦ rw e refl ]

module _ (lz4 : Lz4) (c : Steps) (h : Handles) (members : List Member) where
  abbrev pub all_errors : Db → Disk → List (Option Error)
  all_errors db disk =
      (c.monitor ∷ member_errors lz4 db disk h.db members)
      ++ (if h.rtx then c.rollback else none) ∷ (if h.db then c.close_db else none) ∷ []

  abbrev pub IsClosed : ClosedDb → Type 1
  IsClosed x =
      (x.error ≡ earliest (all_errors x.db x.disk))
      × (x.handles ≡ record h { rtx = false })
      × (x.members ≡ members_after lz4 x.db x.disk h.db members)
      × ((h.db ≡ false)
          ⊎ ((e : Error) × (x.error ≡ some e))
          ⊎ All (MemberSent lz4 x.db x.disk) members)

  close_handles_lem :
      (db : Db) (disk : Disk)
      → close_handles lz4 db disk c h (close_members lz4 db disk h.db c.monitor members) ≡ record {
        error = earliest (all_errors db disk);
        handles = record h { rtx = false };
        db = db;
        disk = disk;
        members = members_after lz4 db disk h.db members;
      }
  close_handles_lem db disk =
      let errors = c.monitor ∷ member_errors lz4 db disk h.db members in
      let rollback : Option Error = if h.rtx then c.rollback else none in
      let close_db : Option Error = if h.db then c.close_db else none in
      rw (close_members_lem lz4 db disk h.db members c.monitor, release_read_lock_lem c.rollback h)
        (λ i. record {
          error = earliest-last_two errors rollback close_db i;
          handles = record h { rtx = false };
          db = db;
          disk = disk;
          members = members_after lz4 db disk h.db members;
        })

  failed_or_sent :
      (db : Db) (disk : Disk) (o : Option Error)
      → earliest (all_errors db disk) ≡ o
      → (h.db ≡ false) ⊎ ((e : Error) × (o ≡ some e)) ⊎ All (MemberSent lz4 db disk) members
  failed_or_sent db disk (some e) q = inr (inl (e, refl))
  failed_or_sent db disk none q = elim (Bool-cases h.db) [
    | inr closed ↦ inl closed
    | inl opened ↦
        let no_error =
          earliest-none (c.monitor ∷ member_errors lz4 db disk h.db members)
            ((if h.rtx then c.rollback else none) ∷ (if h.db then c.close_db else none) ∷ []) q in
        inr (
          inr (
            all_sent lz4 db disk members (
              subst (λ b. All (λ e. e ≡ none) (member_errors lz4 db disk b members)) opened
                no_error.1)))
  ]

  close_handles-IsClosed :
      (db : Db) (disk : Disk)
      → IsClosed (close_handles lz4 db disk c h (close_members lz4 db disk h.db c.monitor members))
  close_handles-IsClosed db disk =
      subst IsClosed (sym (close_handles_lem db disk))
        (refl, refl, refl, failed_or_sent db disk _ refl)

  -- `Close`, on a page size that is a multiple of 8, a position that is zero or in a generation with a
  -- known byte order, and eight random bytes for a new name: it returns, and runs all of its steps
  -- whichever of them fail. Its error is the first of those of the monitor, of each replica's last
  -- sync and of closing it, of the rollback that releases the read lock, and of closing the
  -- connection. The read lock is released, and no other handle of the fields changes, so that the
  -- database's file stays open. Where the database was initialized and there is no error, the last
  -- sync of each of its replicas met a position of the database, and has sent all segments that the
  -- shadow WAL listed then, from the end of what the replica's client listed on; without replicas
  -- nothing is said of the last sync.
  pub close-IsClosed :
      (n : ℕ) (db : Db) (disk : Disk)
      → All IsRandom c.worlds
      → Valid n db disk
      → (x : ClosedDb) × (close lz4 c h members db disk ≡ some x) × IsClosed x
  unfolding close
  close-IsClosed n db disk random valid = elim (Bool-cases h.db) [
    | inr e ↦ (_, rw e refl, close_handles-IsClosed db disk)
    | inl e ↦
        let (db', disk', q, _) =
          sync_retrying-Synced n lz4 (positions members) c.worlds db disk random valid in
        (_, rw (e, q) refl, close_handles-IsClosed db' disk')
  ]
