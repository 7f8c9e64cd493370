-- ===== src/Downloader/Join.antt =====
-- wal_downloader.go: the file that `downloadWAL` leaves, and the errors that `Close` returns.
use litestream.Prelude.{
  ℕ, ◌≡◌, ◌↔◌, ap, inl, inr, ◌>>◌, refl, Option, none, some, List, [], ◌∷◌, ◌++◌, Error, Result, ok,
  err, ◌==◌, ==_iff, failing, wrapping, ◌>>=◌, length, Bool-cases, Result-cases,
}
use litestream.Text.{Text}
use litestream.Client.{ReplicaClient}
use litestream.Db.Disk.{Lz4}
use litestream.Downloader.{WalDownloadInput, DownloadFaults, download_loop, download_wal}

abbrev pub no_faults : DownloadFaults
no_faults = record { create = none; write = λ n. none; close = none }

module _ (lz4 : Lz4) (client : ReplicaClient) (generation : Text) where
  -- `out` is `file` and then the decompressed segments of the offsets; each offset is the number of
  -- bytes before its segment.
  abbrev pub Joined : ℕ → List ℕ → List ℕ → List ℕ → Type 0
  Joined index file [] out = file ≡ out
  Joined index file (offset ∷ offsets) out =
      (length file ≡ offset)
      × ((rd : List ℕ) × (bytes : List ℕ) × (client.wal_segment_reader
              (record { generation = generation; index = index; offset = offset })
            ≡ ok rd)
          × (lz4.decompress rd ≡ ok bytes)
          × Joined index (file ++ bytes) offsets out)

  copied :
      (r : Result (List ℕ)) (dec : List ℕ → Result (List ℕ)) (w : Result (Unit {0}))
      (rest : List ℕ → Result (List ℕ)) {out : List ℕ}
      → (wrapping "read WAL segment" r >>= λ rd. wrapping "copy WAL segment" (dec rd) >>= λ bytes.
          wrapping "copy WAL segment" w >> rest bytes)
        ≡ ok out
      → (rd : List ℕ) × (bytes : List ℕ) × (r ≡ ok rd) × (dec rd ≡ ok bytes) × (rest bytes ≡ ok out)
  copied (err e) dec w rest h = cc
  copied (ok rd) dec w rest h = elim (Result-cases (dec rd)) [
    | inl (e, d) ↦ cc (rw d at h)
    | inr (bytes, d) ↦ (rd, bytes, refl, d, written w bytes (rw d at h))
  ]
    where
      written :
          (w : Result (Unit {0})) (bytes : List ℕ) {out : List ℕ}
          → (wrapping "copy WAL segment" w >> rest bytes) ≡ ok out
          → rest bytes ≡ ok out
      written (ok _) bytes h = h
      written (err e) bytes h = cc

  module _ (faults : DownloadFaults) where
    download_loop-Joined :
        (index : ℕ) (file offsets : List ℕ) (out : List ℕ)
        → download_loop lz4 client faults generation index file offsets ≡ ok out
        → Joined index file offsets out
    unfolding download_loop
    download_loop-Joined index file [] out h = cc
    download_loop-Joined index file (offset ∷ offsets) out h =
        elim (Bool-cases (length file == offset)) [
          | inr gap ↦ cc (rw (download_loop, gap) at h)
          | inl at ↦
              let (rd, bytes, r, d, rest) =
                copied
                  (client.wal_segment_reader
                    (record { generation = generation; index = index; offset = offset }))
                  lz4.decompress (failing (faults.write (length file)))
                  (λ bytes.
                    download_loop lz4 client faults generation index (file ++ bytes) offsets)
                  (rw (download_loop, at) at h) in
              (
                (==_iff (length file) offset).0 at,
                (rd, bytes, r, d, download_loop-Joined index (file ++ bytes) offsets out rest),
              )
        ]

    -- `downloadWAL`, when it succeeds, leaves a file that is the decompressed segments of its input
    -- one after another, and each segment's offset is the number of bytes before it.
    pub download_wal-Joined :
        (input : WalDownloadInput) (out : List ℕ)
        → download_wal lz4 client faults generation input ≡ ok out
        → Joined input.index [] input.offsets out
    unfolding download_wal
    download_wal-Joined input out h =
        closed faults.create faults.close
          (download_loop lz4 client faults generation input.index [] input.offsets) h
          (download_loop-Joined input.index [] input.offsets)
      where
        closed :
            (create close : Option Error) (file : Result (List ℕ))
            → (failing create >> (file >>= λ f. failing close >> ok f)) ≡ ok out
            → ((f : List ℕ) → file ≡ ok f → Joined input.index [] input.offsets f)
            → Joined input.index [] input.offsets out
        closed (some e) close file h lem = cc
        closed none (some e) (ok f) h lem = cc
        closed none none (ok f) h lem = lem out h
        closed none close (err e) h lem = cc

-- Where the file system refuses nothing: segments that can be read and decompressed, each at the
-- offset where the one before it ends, are always joined, and to nothing else.
pub download_wal-Joined_iff :
    (lz4 : Lz4) (client : ReplicaClient) (generation : Text) (input : WalDownloadInput)
    (out : List ℕ)
    → (download_wal lz4 client no_faults generation input ≡ ok out)
      ↔ Joined lz4 client generation input.index [] input.offsets out
unfolding download_wal
download_wal-Joined_iff lz4 client generation input out = (
  download_wal-Joined lz4 client generation no_faults input out,
  λ j. rw (loop_joins input.index [] input.offsets j) refl,
)
  where
    loop_joins :
        (index : ℕ) (file offsets : List ℕ)
        → Joined lz4 client generation index file offsets out
        → download_loop lz4 client no_faults generation index file offsets ≡ ok out
    loop_joins index file [] j = ap ok j
    loop_joins index file (offset ∷ offsets) (at, (rd, bytes, r, d, j)) =
        rw (download_loop, (==_iff (length file) offset).1 at, r, d)
          (loop_joins index (file ++ bytes) offsets j)
