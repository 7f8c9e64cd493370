-- ===== src/Client/Bounds/Newest.antt =====
-- The bounds of listed snapshots, and the generation that `FindLatestGeneration` returns.
use litestream.Prelude.{
  ◌≤◌, ◌≡◌, refl, sym, ap, ◌∙◌, ◌⊎◌, inl, inr, false, ltb, List, [], ◌∷◌, ok, All, Bool-cases,
  Result-cases, arith,
}
use litestream.Text.{Text, text_eq, text_eq_refl}
use litestream.Client.Infos.{ReplicaClient, Time}
use litestream.Client.Index.{Any}
use litestream.Client.Bounds.{
  generation_time_bounds, latest_loop, latest_of, find_latest_generation,
}

-- The generation has bounds that end at `latest`.
abbrev pub Updated : ReplicaClient → Time → Text → Type 0
Updated client latest g =
    (bounds : Time × Time) × (generation_time_bounds client g ≡ ok bounds) × (bounds.1 ≡ latest)

-- The generation has bounds that end no later than `latest`.
abbrev pub NotAfter : ReplicaClient → Time → Text → Type 0
NotAfter client latest g =
    (bounds : Time × Time) × (generation_time_bounds client g ≡ ok bounds) × (bounds.1 ≤ latest)

module _ (client : ReplicaClient) where
  latest_loop-NotAfter :
      (generations : List Text) (max_time : Time) (generation : Text) (result : Text)
      → latest_loop client generations max_time generation ≡ ok result
      → (latest : Time) × (max_time ≤ latest)
        × All (NotAfter client latest) generations
        × (((result ≡ generation) × (latest ≡ max_time))
            ⊎ (Any (λ g. g ≡ result) generations × Updated client latest result))
  unfolding latest_loop
  latest_loop-NotAfter [] max_time generation result h = (max_time, omega arith, tt, inl (cc, refl))
  latest_loop-NotAfter (g ∷ generations) max_time generation result h =
      elim (Result-cases (generation_time_bounds client g)) [
        | inl (e, q) ↦ cc (rw (latest_loop, q) at h)
        | inr (bounds, q) ↦ elim (Bool-cases (ltb max_time bounds.1)) [
          | inl more ↦
              let (latest, le, all, from) =
                latest_loop-NotAfter generations bounds.1 g result
                  (rw (latest_loop, q, more) at h) in
              (latest, ground arith, ((bounds, q, le), all), newer bounds q latest from)
          | inr less ↦
              let (latest, le, all, from) =
                latest_loop-NotAfter generations max_time generation result
                  (rw (latest_loop, q, less) at h) in
              (latest, le, ((bounds, q, ground arith), all), older latest from)
        ]
      ]
    where
      newer :
          (bounds : Time × Time)
          → generation_time_bounds client g ≡ ok bounds
          → (latest : Time)
          → ((result ≡ g) × (latest ≡ bounds.1))
            ⊎ (Any (λ g. g ≡ result) generations × Updated client latest result)
          → ((result ≡ generation) × (latest ≡ max_time))
            ⊎ (Any (λ g. g ≡ result) (g ∷ generations) × Updated client latest result)
      newer bounds q latest (inr (k, u)) = inr (inr k, u)
      newer bounds q latest (inl (same, at)) =
          inr (inl (sym same), (bounds, ap (generation_time_bounds client) same ∙ q, sym at))

      older :
          (latest : Time)
          → ((result ≡ generation) × (latest ≡ max_time))
            ⊎ (Any (λ g. g ≡ result) generations × Updated client latest result)
          → ((result ≡ generation) × (latest ≡ max_time))
            ⊎ (Any (λ g. g ≡ result) (g ∷ generations) × Updated client latest result)
      older latest (inr (k, u)) = inr (inr k, u)
      older latest (inl p) = inl p

  -- `FindLatestGeneration`, when it returns a generation: it is one that the client lists, all
  -- listed generations have time bounds, and none was updated later than it.
  pub find_latest_generation-NotAfter :
      (generations : List Text) (result : Text)
      → client.generations ≡ ok generations
      → find_latest_generation client ≡ ok result
      → (latest : Time) × Any (λ g. g ≡ result) generations
        × Updated client latest result
        × All (NotAfter client latest) generations
  unfolding find_latest_generation latest_of
  find_latest_generation-NotAfter generations result e h =
      let picked : latest_of client (ok generations) ≡ ok result =
        sym (ap (latest_of client) e) ∙ h in
      elim (Result-cases (latest_loop client generations 0 [])) [
        | inl (x, q) ↦ cc (rw q at picked)
        | inr (g, q) ↦ elim (Bool-cases (text_eq g [])) [
          | inl k ↦ cc (rw (q, k) at picked)
          | inr k ↦
              let same : g ≡ result = cc (rw (q, k) at picked) in
              let (latest, le, all, from) =
                latest_loop-NotAfter generations 0 [] result (q ∙ ap ok same) in
              found latest all from (sym (ap (λ r. text_eq r []) same) ∙ k)
        ]
      ]
    where
      found :
          (latest : Time)
          → All (NotAfter client latest) generations
          → ((result ≡ []) × (latest ≡ 0))
            ⊎ (Any (λ g. g ≡ result) generations × Updated client latest result)
          → text_eq result [] ≡ false
          → (latest : Time) × Any (λ g. g ≡ result) generations
            × Updated client latest result
            × All (NotAfter client latest) generations
      found latest all (inr (k, u)) h = (latest, k, u, all)
      found latest all (inl (same, at)) h = cc (text_eq_refl [], h, same)
