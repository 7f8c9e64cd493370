-- ===== src/Cloud/S3/Keeps.antt =====
-- What the removal of objects in batches leaves alone.
use litestream.Prelude.{
  suc, ◌≡◌, refl, sym, ◌∙◌, subst, inl, inr, some, List, [], ◌∷◌, Result, ok, err, All, All-left,
  All-right, Result-cases, concat, length,
}
use litestream.Files.System.{FilePath}
use litestream.Cloud.Bucket.{Bucket, IsLawful, Spared}
use litestream.Cloud.S3.Batches.{delete_each, and_next, delete_batches-Batched}
use litestream.Cloud.S3.{keys_of, delete_batch, delete_batches}

module _ (B : Bucket) (L : IsLawful B) (key : FilePath) where
  abbrev pub Keeps : B.State → Result (Unit {0}) × B.State → Type 0
  Keeps s o = B.get key o.1 ≡ B.get key s

  module _ {A : Type 0} (key_of : A → Result FilePath) where
    abbrev pub Avoids : A → Type 0
    Avoids x = (k : FilePath) → key_of x ≡ ok k → key ≡ k → ⊥

    keys_of-Spared :
        (a : List A) (keys : List FilePath)
        → All Avoids a
        → keys_of B key_of a ≡ ok keys
        → Spared key keys
    keys_of-Spared [] keys h e = subst (Spared key) (keys-eq e) tt
      where
        keys-eq : ok [] ≡ ok keys → [] ≡ keys
        keys-eq e = cc
    keys_of-Spared (x ∷ a) keys h e = elim (Result-cases (key_of x)) [
      | inl (failure, q) ↦ cc (rw q at e)
      | inr (k, q) ↦ elim (Result-cases (keys_of B key_of a)) [
        | inl (failure, r) ↦ cc (rw (q, r) at e)
        | inr (ks, r) ↦
            let same : k ∷ ks ≡ keys = cc (rw (q, r) at e) in
            subst (Spared key) same (h.0 k q, keys_of-Spared a ks h.1 r)
      ]
    ]

    delete_batch-Keeps :
        (a : List A) (s : B.State) → All Avoids a → Keeps s (delete_batch B key_of a s)
    delete_batch-Keeps a s h = elim (Result-cases (keys_of B key_of a)) [
      | inl (e, q) ↦ rw (delete_batch, q) refl
      | inr (keys, q) ↦ rw (delete_batch, q) (L.get-delete keys key s (keys_of-Spared a keys h q))
    ]

    and_next-Keeps :
        (s : B.State) (o : Result (Unit {0}) × B.State)
        (next : B.State → Result (Unit {0}) × B.State)
        → Keeps s o
        → ((s' : B.State) → Keeps s' (next s'))
        → Keeps s (and_next B key_of o next)
    and_next-Keeps s (err e, s') next h k = h
    and_next-Keeps s (ok _, s') next h k = k s' ∙ h

    delete_each-Keeps :
        (batches : List (List A)) (s : B.State)
        → All Avoids (concat batches)
        → Keeps s (delete_each B key_of batches s)
    unfolding delete_each
    delete_each-Keeps [] s h = refl
    delete_each-Keeps (b ∷ batches) s h =
        and_next-Keeps s (delete_batch B key_of b s) (delete_each B key_of batches)
          (delete_batch-Keeps b s (All-left Avoids b (concat batches) h))
          (λ s'. delete_each-Keeps batches s' (All-right Avoids b (concat batches) h))

    pub delete_batches-Keeps :
        (a : List A) (s : B.State)
        → All Avoids a
        → (o : Result (Unit {0}) × B.State) × (delete_batches B key_of (suc (length a)) a s
            ≡ some o)
          × Keeps s o
    delete_batches-Keeps a s h =
        let (batches, whole, _, runs) = delete_batches-Batched B key_of a in
        (
          delete_each B key_of batches s,
          runs s,
          delete_each-Keeps batches s (subst (All Avoids) (sym whole) h),
        )
