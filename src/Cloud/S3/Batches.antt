-- ===== src/Cloud/S3/Batches.antt =====
-- The batches in which the client of S3 removes objects.
use litestream.Prelude.{
  ℕ, zero, suc, ◌≤◌, ◌<◌, ◌≡◌, refl, ap, ◌∙◌, Option, some, List, [], ◌∷◌, ◌++◌, Result, ok, err,
  All, arith, length, take, drop, concat, length-take_of_le, length-drop, take-append-drop,
}
use litestream.Files.System.{FilePath}
use litestream.Cloud.Bucket.{Bucket}
use litestream.Cloud.S3.{max_keys, batch_size, delete_batch, after_batch, delete_batches}

batch_size-le :
    (n : ℕ) → 0 < n → (0 < batch_size n) × (batch_size n ≤ n) × (batch_size n ≤ max_keys)
unfolding batch_size
batch_size-le n h = ground arith

module _ (B : Bucket) {A : Type 0} (key_of : A → Result FilePath) where
  abbrev pub and_next :
      Result (Unit {0}) × B.State
      → (B.State → Result (Unit {0}) × B.State)
      → Result (Unit {0}) × B.State
  and_next (err e, s) next = (err e, s)
  and_next (ok _, s) next = next s

  -- One request for each batch, up to the first that fails.
  unfoldable pub delete_each : List (List A) → B.State → Result (Unit {0}) × B.State
  delete_each [] s = (ok tt, s)
  delete_each (b ∷ batches) s = and_next (delete_batch B key_of b s) (delete_each batches)

  abbrev pub IsBatch : List A → Type 0
  IsBatch b = (0 < length b) × (length b ≤ max_keys)

  after_batch-and_next :
      (o : Result (Unit {0}) × B.State) (next : B.State → Option (Result (Unit {0}) × B.State))
      (next' : B.State → Result (Unit {0}) × B.State)
      → ((s : B.State) → next s ≡ some (next' s))
      → after_batch B key_of o next ≡ some (and_next o next')
  after_batch-and_next (err e, s) next next' h = refl
  after_batch-and_next (ok _, s) next next' h = h s

  batches_with :
      (fuel : ℕ) (a : List A)
      → length a < fuel
      → (batches : List (List A)) × (concat batches ≡ a)
        × All IsBatch batches
        × ((s : B.State) → delete_batches B key_of fuel a s ≡ some (delete_each batches s))
  unfolding delete_batches delete_each
  batches_with zero a h = elim h [ ]
  batches_with (suc fuel) [] h = ([], refl, tt, λ s. refl)
  batches_with (suc fuel) (x ∷ a) h =
      let n = batch_size (length (x ∷ a)) in
      let fits : (0 < n) × (n ≤ length (x ∷ a)) × (n ≤ max_keys) =
        batch_size-le (length (x ∷ a)) (omega arith) in
      let size : length (take n (x ∷ a)) ≡ n = length-take_of_le n (x ∷ a) fits.1 in
      let (rest, whole, small, runs) =
        batches_with fuel (drop n (x ∷ a)) (omega (arith, fits, length-drop n (x ∷ a), h)) in
      (
        take n (x ∷ a) ∷ rest,
        ap (◌++◌ (take n (x ∷ a))) whole ∙ take-append-drop n (x ∷ a),
        ((omega (arith, fits, size), omega (arith, fits, size)), small),
        λ s.
            after_batch-and_next (delete_batch B key_of (take n (x ∷ a)) s)
              (delete_batches B key_of fuel (drop n (x ∷ a))) (delete_each rest) runs,
      )

  -- Whatever is removed in batches is removed by requests of at least one key and at most MaxKeys
  -- keys, which have all elements once and in their order; the loop ends with the last of them, or
  -- with the first that fails.
  pub delete_batches-Batched :
      (a : List A)
      → (batches : List (List A)) × (concat batches ≡ a)
        × All IsBatch batches
        × ((s : B.State)
            → delete_batches B key_of (suc (length a)) a s ≡ some (delete_each batches s))
  delete_batches-Batched a = batches_with (suc (length a)) a (omega arith)
