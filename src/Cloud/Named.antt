-- ===== src/Cloud/Named.antt =====
-- What the clients of the cloud services list as generations.
use litestream.Prelude.{◌≡◌, subst, Option, none, some, List, Error, ok, err, ◌>>◌, failing, All}
use litestream.Text.{Text}
use litestream.Client.{Time}
use litestream.Client.Remote.{IsName}
use litestream.Files.Listing.{generation_names}
use litestream.Files.Named.{generation_names-Named}
use litestream.Cloud.Bucket.{Bucket}
use litestream.Cloud.Gs.{generations as gs_generations}
use litestream.Cloud.S3.{generations as s3_generations}

names_in-Named :
    (started close : Option Error) (names a : List Text)
    → (failing started >> elim close [ some e ↦ err e | none ↦ ok (generation_names names) ]) ≡ ok a
    → All IsName a
names_in-Named (some e) close names a h = cc
names_in-Named none (some e) names a h = cc
names_in-Named none none names a h =
    let same : generation_names names ≡ a = cc in
    subst (All IsName) same (generation_names-Named names)

pub gs_generations-Named :
    (B : Bucket) (path : Text) (started : Option Error) (now : Time) (s : B.State) (a : List Text)
    → gs_generations B path started now s ≡ ok a
    → All IsName a
unfolding gs_generations
gs_generations-Named B path started now s a h = names_in-Named started _ _ a h

pub s3_generations-Named :
    (B : Bucket) (path : Text) (started : Option Error) (now : Time) (s : B.State) (a : List Text)
    → s3_generations B path started now s ≡ ok a
    → All IsName a
unfolding s3_generations
s3_generations-Named B path started now s a h = names_in-Named started _ _ a h
