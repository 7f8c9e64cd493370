-- ===== src/Downloader.antt =====
-- wal_downloader.go: `WALDownloader`. Each worker's download is a function of its input; how the
-- workers interleave is in the child Workers.
pub mod Input
pub mod Join
pub mod Workers
use litestream.Prelude.{
  ℕ, zero, suc, ◌+◌, ◌-◌, ◌==◌, ◌≡◌, refl, Bool, true, false, not, Option, none, some, List, [],
  ◌∷◌, ◌++◌, Error, eof, wal_not_found, message, wrap, Result, ok, err, ◌>>=◌, ◌>>◌, failing,
  wrapping, ltb, if◌then◌else◌, length, concat,
}
use litestream.Text.{Text}
use litestream.Pos.{Pos}
use litestream.Client.{WalSegmentInfo, Listing, ReplicaClient}
use litestream.Db.Disk.{Lz4}

-- walDownloadInput
pub record WalDownloadInput : Type 0 where
  pub index : ℕ
  pub offsets : List ℕ

-- The checks of WALDownloader.init, as far as they do not depend on an earlier call. A negative
-- index is `none`.
unfoldable pub check_range : Option ℕ → Option ℕ → ℕ → Result (ℕ × ℕ)
check_range none max_index parallelism = err (message "minimum index required")
check_range (some min_index) none parallelism = err (message "maximum index required")
check_range (some min_index) (some max_index) parallelism =
    if ltb max_index min_index
    then err (message "minimum index cannot be larger than maximum index")
    else if ltb parallelism 1
    then err (message "parallelism must be at least one")
    else ok (min_index, max_index)

-- `if len(offsets) > 0 { d.input <- … }`
unfoldable pub flush_offsets : ℕ → List ℕ → List WalDownloadInput → List WalDownloadInput
flush_offsets index [] sent = sent
flush_offsets index (o ∷ offsets) sent =
    sent ++ record { index = index; offsets = o ∷ offsets } ∷ []

-- After the loop of initInputCh.
unfoldable pub finish_input :
    ℕ
    → Option Error
    → ℕ
    → List ℕ
    → List WalDownloadInput
    → List WalDownloadInput × Result (Unit {0})
unfolding flush_offsets
finish_input max_index close next offsets sent =
    if not (next == max_index + 1)
    then (sent, err (wal_not_found next))
    else (flush_offsets (next - 1) offsets sent, failing close)

-- The loop of initInputCh. `next` is `index + 1` of the source, whose `index` starts at
-- `minIndex - 1`; `sent` is what the input channel holds.
unfoldable pub input_loop :
    ℕ
    → ℕ
    → Option Error
    → ℕ
    → List ℕ
    → List WalDownloadInput
    → List WalSegmentInfo
    → List WalDownloadInput × Result (Unit {0})
input_loop min_index max_index close next offsets sent [] =
    finish_input max_index close next offsets sent
input_loop min_index max_index close next offsets sent (info ∷ itr) =
    elim (ltb info.index min_index) [
      | true ↦ input_loop min_index max_index close next offsets sent itr
      | false ↦ elim (ltb max_index info.index) [
        | true ↦ finish_input max_index close next offsets sent
        | false ↦ elim (info.index + 1 == next) [
          | true ↦ input_loop min_index max_index close next (offsets ++ info.offset ∷ []) sent itr
          | false ↦ elim (info.index == next) [
            | false ↦ (sent, err (wal_not_found next))
            | true ↦
                input_loop min_index max_index close (next + 1) (info.offset ∷ [])
                  (flush_offsets (next - 1) offsets sent) itr
          ]
        ]
      ]
    ]

-- WALDownloader.initInputCh: what the channel holds, and the error.
unfoldable pub init_input_ch :
    ReplicaClient → Text → ℕ → ℕ → List WalDownloadInput × Result (Unit {0})
init_input_ch client generation min_index max_index = elim (client.wal_segments generation) [
  | err e ↦ ([], err (wrap "wal segments" e))
  | ok itr ↦ input_loop min_index max_index itr.close min_index [] [] itr.items
]

-- What the file system refuses: creating the file, a write when it has some size, closing it.
pub record DownloadFaults : Type 0 where
  pub create : Option Error
  pub write : ℕ → Option Error
  pub close : Option Error

module _ (lz4 : Lz4) (client : ReplicaClient) (faults : DownloadFaults) (generation : Text) where
  -- The loop of downloadWAL over a WAL's segments; `file` is what has been written.
  unfoldable pub download_loop : ℕ → List ℕ → List ℕ → Result (List ℕ)
  download_loop index file [] = ok file
  download_loop index file (offset ∷ offsets) =
      if not (length file == offset) then err (message "missing WAL offset") else do
        rd ← wrapping "read WAL segment" (
            client.wal_segment_reader
              (record { generation = generation; index = index; offset = offset }))
        bytes ← wrapping "copy WAL segment" (lz4.decompress rd)
        wrapping "copy WAL segment" (failing (faults.write (length file)))
        download_loop index (file ++ bytes) offsets

  -- WALDownloader.downloadWAL; the result stands for the path of the file that holds it.
  unfoldable pub download_wal : WalDownloadInput → Result (List ℕ)
  unfolding download_loop
  download_wal input = do
    failing faults.create
    file ← download_loop input.index [] input.offsets
    failing faults.close
    ok file

-- WALDownloader.Close, on `d.err` and on what the workers' group returns, if it was started.
unfoldable pub close_downloader : Option Error → Option (Option Error) → Option Error
close_downloader d_err none = d_err
close_downloader none (some e) = none
close_downloader (some d) (some none) = none
close_downloader (some d) (some (some Error.canceled)) = some d
close_downloader (some d) (some (some e)) = some e
