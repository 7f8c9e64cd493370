-- ===== src/Tests/Cloud.antt =====
-- The clients of cloud services, over a bucket in memory with one snapshot and two segments.
use litestream.Prelude.{◌≡◌, true, none, some, List, [], ◌∷◌, Result, ok, All, concat}
use litestream.Client.Remote.{read_file, snapshot_file, Careful, CarefulBut}
use litestream.Files.System.{FilePath, Tree}
use litestream.Cloud.Bucket.{begins_with}
use litestream.Cloud.Bucket.Memory.{memory, memory-IsLawful}
use litestream.Cloud.Names.{snapshot_key, segment_key}
use litestream.Cloud.Gs.{gs_client, delete_snapshot}
use litestream.Cloud.Gs.Careful.{gs_client-Careful, delete_snapshot-Same}
use litestream.Cloud.Abs.{abs_client}
use litestream.Cloud.Abs.Careful.{abs_client-Careful}
use litestream.Cloud.S3.{s3_client, delete_batches}
use litestream.Cloud.S3.Batches.{IsBatch, delete_each, delete_batches-Batched}
use litestream.Cloud.S3.Careful.{s3_client-CarefulBut}
use litestream.Tests.Remote.{root, name}

abbrev tree : Tree
tree =
    (snapshot_key root name 2, record { bytes = 1 ∷ 2 ∷ []; mod_time = 9 })
    ∷ (
      segment_key root (record { generation = name; index = 2; offset = 0 }),
      record { bytes = 3 ∷ []; mod_time = 9 },
    )
    ∷ (
      segment_key root (record { generation = name; index = 2; offset = 1 }),
      record { bytes = 4 ∷ []; mod_time = 9 },
    )
    ∷ []

gs_client-Careful_example : Careful (gs_client memory root none 5)
gs_client-Careful_example = gs_client-Careful memory memory-IsLawful root none 5

abs_client-Careful_example : Careful (abs_client memory root none 5)
abs_client-Careful_example = abs_client-Careful memory memory-IsLawful root none 5

delete_snapshot-Same_example :
    read_file
      ((gs_client memory root none 5).reads (delete_snapshot memory root none 5 name 2 tree).1)
      (snapshot_file name 2)
    ≡ read_file ((gs_client memory root none 5).reads tree) (snapshot_file name 2)
delete_snapshot-Same_example =
    delete_snapshot-Same memory memory-IsLawful root none 5 name 2 tree (snapshot_file name 2)

s3_client-CarefulBut_example :
    CarefulBut
      (λ generation other. begins_with generation other ≡ true)
      (s3_client memory root none 5)
s3_client-CarefulBut_example = s3_client-CarefulBut memory memory-IsLawful root none 5

abbrev keys : List FilePath
keys = snapshot_key root name 2 ∷ snapshot_key root name 3 ∷ []

abbrev as_asked : FilePath → Result FilePath
as_asked key = ok key

delete_batches-Batched_example :
    (batches : List (List FilePath)) × (concat batches ≡ keys)
    × All (IsBatch memory as_asked) batches
    × ((s : Tree)
        → delete_batches memory as_asked 3 keys s ≡ some (delete_each memory as_asked batches s))
delete_batches-Batched_example = delete_batches-Batched memory as_asked keys
