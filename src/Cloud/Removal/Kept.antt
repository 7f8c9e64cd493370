-- ===== src/Cloud/Removal/Kept.antt =====
-- What a removal of objects one by one leaves alone, as seen at one key.
use litestream.Prelude.{
  ◌≡◌, refl, sym, ap, ◌∙◌, inl, inr, true, none, Option, List, [], ◌∷◌, Error, Result, ok, err, All,
  All-map, Bool-cases, Result-cases,
}
use litestream.Text.{Text}
use litestream.Pos.{Pos}
use litestream.Files.System.{FilePath, below}
use litestream.Cloud.Bucket.{Object, Bucket, IsLawful, in_listing, continues, is_not_exists}
use litestream.Cloud.Names.{generation_required, segment_key}
use litestream.Cloud.Removal.{after_delete, delete_listed, delete_segments, deleted}

module _ (B : Bucket) (L : IsLawful B) (explain : Error → Error) (key : FilePath) where
  abbrev pub Keeps : B.State → Result (Unit {0}) × B.State → Type 0
  Keeps s o = B.get key o.1 ≡ B.get key s

  after_delete-Keeps :
      (s : B.State) (o : Result (Unit {0}) × B.State) (next : B.State → Result (Unit {0}) × B.State)
      → Keeps s o
      → ((s' : B.State) → Keeps s' (next s'))
      → Keeps s (after_delete B explain o next)
  after_delete-Keeps s (ok _, s') next h k = k s' ∙ h
  after_delete-Keeps s (err e, s') next h k = elim (Bool-cases (is_not_exists e)) [
    | inl q ↦ rw q (k s' ∙ h)
    | inr q ↦ rw q h
  ]

  pub deleted-Keeps :
      (s : B.State) (o : Result (Unit {0}) × B.State) → Keeps s o → Keeps s (deleted B explain o)
  deleted-Keeps s o h = after_delete-Keeps s o (λ s'. (ok tt, s')) h (λ s'. refl)

  delete_listed-Keeps :
      (objects : List Object) (close : Option Error) (s : B.State)
      → All (λ o. key ≡ o.key → ⊥) objects
      → Keeps s (delete_listed B explain objects close s)
  unfolding delete_listed
  delete_listed-Keeps [] close s d = refl
  delete_listed-Keeps (o ∷ objects) close s d =
      after_delete-Keeps s (B.delete (o.key ∷ []) s) (delete_listed B explain objects close)
        (L.get-delete (o.key ∷ []) key s (d.0, tt)) (λ s'. delete_listed-Keeps objects close s' d.1)

  pub delete_segments-Keeps :
      (path : Text) (a : List Pos) (s : B.State)
      → All (λ p. key ≡ segment_key path p → ⊥) a
      → Keeps s (delete_segments B explain path a s)
  unfolding delete_segments
  delete_segments-Keeps path [] s d = refl
  delete_segments-Keeps path (pos ∷ a) s d =
      elim (Result-cases (generation_required pos.generation)) [
        | inl (e, q) ↦ rw (delete_segments, q) refl
        | inr (_, q) ↦
            rw (delete_segments, q)
              (after_delete-Keeps s (B.delete (segment_key path pos ∷ []) s)
                (delete_segments B explain path a)
                (L.get-delete (segment_key path pos ∷ []) key s (d.0, tt))
                (λ s'. delete_segments-Keeps path a s' d.1))
      ]

  not_listed :
      (dir : FilePath) (name : Text) (o : Object)
      → below dir key ≡ none
      → in_listing dir name o.key ≡ true
      → key ≡ o.key
      → ⊥
  not_listed dir name o outside inside e =
      cc (ap (continues name) (ap (below dir) (sym e) ∙ outside), inside)

  -- A listing of a directory that the key is not below.
  pub delete_below-Keeps :
      (dir : FilePath) (name : Text) (s : B.State)
      → below dir key ≡ none
      → Keeps s (delete_listed B explain (B.list dir name s).items (B.list dir name s).close s)
  delete_below-Keeps dir name s outside =
      delete_listed-Keeps (B.list dir name s).items (B.list dir name s).close s (
        All-map (λ o. in_listing dir name o.key ≡ true) (λ o. key ≡ o.key → ⊥)
          (λ o. not_listed dir name o outside) (B.list dir name s).items (L.listed dir name s))
