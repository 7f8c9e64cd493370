-- ===== src/Config/PathStyle.antt =====
-- The path style of a client of S3 that is built from a URL.
use litestream.Prelude.{
  ◌≡◌, refl, sym, ap, ◌∙◌, ◌⊎◌, ◌↔◌, inl, inr, Option, some, ◌∷◌, Bool, true, false, not, ◌&&◌,
  ◌||◌, none, [], ok, ◌>>=◌, if◌then◌else◌,
}
use litestream.Text.{Text, text_eq}
use litestream.Config.Url.{Library, parse_replica_url}
use litestream.Config.Clients.{
  ReplicaConfig, S3Settings, HostParts, s3_client, is_set, checked, s3_configured, s3_from_url,
  new_s3_client,
}
use litestream.Config.Settled.{refused, bound}

module _ (lib : Library) (parse_host : Text → HostParts) (c : ReplicaConfig) where
  abbrev by_url : Bool → Bool → Bool
  by_url configured from_host = if not configured then from_host else configured

  by_url-or : (a b : Bool) → by_url a b ≡ a || b
  by_url-or true b = refl
  by_url-or false b = refl

  built_by_url :
      (scheme host path : Text) (s : S3Settings)
      → is_set c.url ≡ true
      → parse_replica_url lib c.url ≡ ((scheme, host, path), none)
      → new_s3_client lib parse_host c ≡ ok (s3_client s)
      → s.force_path_style
        ≡ (s3_configured lib parse_host c).force_path_style || (parse_host host).force_path_style
  unfolding new_s3_client
  built_by_url scheme host path s url parsed h =
      let (_, h1) = refused (is_set c.url && is_set c.path) _ _ (s3_client s) h in
      let (_, h2) = refused (is_set c.url && is_set c.bucket) _ _ (s3_client s) h1 in
      let (s', q, h3) =
        bound
          (if is_set c.url
            then (checked (parse_replica_url lib c.url) >>= λ p.
                ok (s3_from_url lib parse_host c p))
            else ok (s3_configured lib parse_host c))
          _ (s3_client s) h2 in
      let (_, h4) = refused (text_eq s'.bucket []) _ _ (s3_client s) h3 in
      let built : s3_from_url lib parse_host c (scheme, host, path) ≡ s' =
        cc (rw (url, parsed) at q) in
      let same : s' ≡ s = cc in
      ap (λ (x : S3Settings). x.force_path_style) (sym (built ∙ same))
      ∙ by_url-or (s3_configured lib parse_host c).force_path_style
          (parse_host host).force_path_style

  -- The configuration asks for the path style, or says nothing of it and has an endpoint.
  abbrev pub Asks : Option Bool → Text → Type 0
  Asks style endpoint = (style ≡ some true) ⊎ ((style ≡ none) × (endpoint ≡ [] → ⊥))

  Asks-iff :
      (style : Option Bool) (endpoint : Text) (b : Bool)
      → ((elim style [ some v ↦ v | none ↦ is_set endpoint ]) || b ≡ true)
        ↔ (Asks style endpoint ⊎ (b ≡ true))
  unfolding text_eq
  Asks-iff (some true) endpoint b = ((λ _. inl (inl refl)), (λ _. refl))
  Asks-iff (some false) endpoint b =
      (inr, λ a. elim a [ inl (inl e) ↦ cc | inl (inr (e, _)) ↦ cc | inr e ↦ e ])
  Asks-iff none [] b =
      (inr, λ a. elim a [ inl (inl e) ↦ cc | inl (inr (_, f)) ↦ absurd (f refl) | inr e ↦ e ])
  Asks-iff none (c ∷ endpoint) b = ((λ _. inl (inr (refl, λ e. cc))), (λ _. refl))

  -- A client of S3 that is built from a URL uses the path style exactly if the configuration asks for
  -- it, or has an endpoint and says nothing, or the URL's host asks for it: a configuration that says
  -- `force-path-style: false` does not go before the URL's host, as the other settings do.
  pub new_s3_client-path_style :
      (scheme host path : Text) (s : S3Settings)
      → is_set c.url ≡ true
      → parse_replica_url lib c.url ≡ ((scheme, host, path), none)
      → new_s3_client lib parse_host c ≡ ok (s3_client s)
      → (s.force_path_style ≡ true)
        ↔ (Asks c.force_path_style c.endpoint ⊎ ((parse_host host).force_path_style ≡ true))
  new_s3_client-path_style scheme host path s url parsed h =
      rw (built_by_url scheme host path s url parsed h)
        (Asks-iff c.force_path_style c.endpoint (parse_host host).force_path_style)
