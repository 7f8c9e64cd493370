-- ===== src/Tests/Downloads.antt =====
-- Downloading the two WALs of the replica.
use litestream.Prelude.{
  Result, ℕ, ◌+◌, ◌*◌, ◌≤◌, arith, true, ◌≡◌, ◌↔◌, ok, refl, List, [], ◌∷◌, length,
}
use litestream.Client.Index.{listing}
use litestream.Downloader.{
  WalDownloadInput, init_input_ch, input_loop, finish_input, flush_offsets, download_wal,
  download_loop,
}
use litestream.Downloader.Input.{Sequential, segments_of, wanted, init_input_ch-Sent}
use litestream.Downloader.Join.{Joined, no_faults, download_wal-Joined_iff}
use litestream.Downloader.Workers.{
  Group, set_worker, start_group, after_send, send_output, take_input, fetch, send, turn, Reach,
  here, next,
}
use litestream.Downloader.Workers.Progress.{Received, CanTurn, Reach-Received, Reach-CanTurn}
use litestream.Downloader.Workers.Ends.{none_yet, again, Turns-start-le}
use litestream.Tests.Shadow.{plain_lz4}
use litestream.Tests.Searches.{generation, all_segments, replica}

abbrev inputs : List WalDownloadInput
inputs = record { index = 3; offsets = 0 ∷ 2 ∷ [] } ∷ record { index = 4; offsets = 0 ∷ [] } ∷ []

init_input_ch-Sent_example :
    Sequential 3 inputs
    × (3 + length inputs ≡ 4 + 1)
    × (segments_of inputs ≡ wanted 3 4 all_segments)
unfolding init_input_ch input_loop finish_input flush_offsets
init_input_ch-Sent_example =
    init_input_ch-Sent replica generation 3 4 (listing all_segments) inputs refl refl

download_wal-Joined_iff_example :
    (download_wal plain_lz4 replica no_faults generation
        (record { index = 3; offsets = 0 ∷ 1 ∷ [] })
      ≡ ok (3 ∷ 0 ∷ []))
    ↔ Joined plain_lz4 replica generation 3 [] (0 ∷ 1 ∷ []) (3 ∷ 0 ∷ [])
download_wal-Joined_iff_example =
    download_wal-Joined_iff plain_lz4 replica generation
      (record { index = 3; offsets = 0 ∷ 1 ∷ [] }) (3 ∷ 0 ∷ [])

-- Two workers; the second one downloads its WAL before the first one does.
abbrev download : WalDownloadInput → Result (List ℕ)
download = download_wal plain_lz4 replica no_faults generation

abbrev start : Group
start = start_group 3 inputs

ends : (g : Group) × Reach 2 4 download start g × (g.closed ≡ true)
unfolding set_worker start_group send_output after_send download_wal download_loop
ends =
    let r1 = next here (turn (take_input 0 (omega arith) refl refl)) in
    let r2 = next r1 (turn (take_input 1 (omega arith) refl refl)) in
    let r3 = next r2 (turn (fetch 1 (omega arith) refl)) in
    let r4 = next r3 (turn (fetch 0 (omega arith) refl)) in
    let r5 = next r4 (turn (send 0 (omega arith) refl refl)) in
    let r6 = next r5 (turn (send 1 (omega arith) refl refl)) in (_, r6, refl)

inputs-Sequential : Sequential 3 inputs
inputs-Sequential = (refl, (λ e. cc), (refl, (λ e. cc), tt))

Reach-Received_example : Received 2 3 4 download inputs ends.0
Reach-Received_example =
    Reach-Received 2 3 4 download inputs inputs-Sequential refl (omega arith) ends.1

Reach-CanTurn_example : CanTurn 2 3 4 download inputs start
unfolding start_group
Reach-CanTurn_example =
    Reach-CanTurn 2 3 4 download inputs inputs-Sequential refl (omega arith) (omega arith) here refl
      refl

Turns-start-le_example : 1 ≤ 2 + 3 * length inputs
unfolding start_group
Turns-start-le_example =
    Turns-start-le 2 4 download 3 inputs (again none_yet (take_input 0 (omega arith) refl refl))
