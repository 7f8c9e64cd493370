-- ===== src/Cloud/Removal.antt =====
-- The loops that the clients of Google Cloud Storage and Azure remove objects with, one by one.
-- `explain` is what they make of an error.
pub mod Kept
use litestream.Prelude.{Option, List, [], ◌∷◌, Error, Result, ok, err, failing, if◌then◌else◌}
use litestream.Text.{Text}
use litestream.Pos.{Pos}
use litestream.Cloud.Bucket.{Object, Bucket, is_not_exists}
use litestream.Cloud.Names.{generation_required, segment_key}

module _ (B : Bucket) (explain : Error → Error) where
  -- That there is no such object is no error.
  abbrev pub after_delete :
      Result (Unit {0}) × B.State
      → (B.State → Result (Unit {0}) × B.State)
      → Result (Unit {0}) × B.State
  after_delete (ok _, s) next = next s
  after_delete (err e, s) next = if is_not_exists e then next s else (err (explain e), s)

  -- The objects of a listing, which ends well or with an error.
  unfoldable pub delete_listed : List Object → Option Error → B.State → Result (Unit {0}) × B.State
  delete_listed [] close s = (failing close, s)
  delete_listed (o ∷ objects) close s =
      after_delete (B.delete (o.key ∷ []) s) (delete_listed objects close)

  unfoldable pub delete_segments : Text → List Pos → B.State → Result (Unit {0}) × B.State
  delete_segments path [] s = (ok tt, s)
  delete_segments path (pos ∷ a) s = elim (generation_required pos.generation) [
    | err e ↦ (err e, s)
    | ok _ ↦ after_delete (B.delete (segment_key path pos ∷ []) s) (delete_segments path a)
  ]

  abbrev pub deleted : Result (Unit {0}) × B.State → Result (Unit {0}) × B.State
  deleted o = after_delete o (λ s. (ok tt, s))
