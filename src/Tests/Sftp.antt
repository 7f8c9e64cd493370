-- ===== src/Tests/Sftp.antt =====
-- The client of SFTP on a server in memory, and its iterator on a directory that is empty.
use litestream.Prelude.{ℕ, ◌≡◌, ◌↔◌, none, List, [], ◌∷◌, Result, ok, if◌then◌else◌, ◌==◌}
use litestream.Client.{WalSegmentInfo}
use litestream.Sftp.Server.Memory.{memory, memory-IsLawful}
use litestream.Sftp.Client.Sparing.{SparesOthers, sftp_client-SparesOthers}
use litestream.Sftp.Iterator.{new_wal_segment_iterator, next}
use litestream.Sftp.Iterator.Stuck.{next-stuck}
use litestream.Tests.Remote.{root, name}

sftp_client-SparesOthers_example : SparesOthers memory root none 5
sftp_client-SparesOthers_example = sftp_client-SparesOthers memory root none 5 memory-IsLawful

abbrev segment : WalSegmentInfo
segment = record { generation = name; index = 3; offset = 0; size = 1; created_at = 5 }

-- The directory of index 2 has lost its segments, that of index 3 has one.
abbrev read : ℕ → Result (List WalSegmentInfo)
read index = if index == 2 then ok [] else ok (segment ∷ [])

next-stuck_example :
    ((fuel : ℕ) → next read none fuel (new_wal_segment_iterator (2 ∷ 3 ∷ [])) ≡ none)
    ↔ (read 2 ≡ ok [])
next-stuck_example = next-stuck read 2 (3 ∷ [])
