-- ===== src/Config/Configured.antt =====
-- What a replica has of its configuration.
use litestream.Prelude.{
  ◌≡◌, refl, sym, ap, subst, inl, inr, true, false, ◌&&◌, [], Result, ok, ◌>>=◌, if◌then◌else◌,
  Bool-cases,
}
use litestream.Text.{Text, text_eq, eq_of_text_eq}
use litestream.Config.Url.{Library, is_url, parse_replica_url, expand, file_type}
use litestream.Config.Clients.{
  ReplicaConfig, S3Settings, AbsSettings, SftpSettings, HostParts, Client, file_client, s3_client,
  gs_client, abs_client, sftp_client, is_set, checked, new_file_client, s3_configured, s3_from_url,
  new_s3_client, gs_from_url, new_gs_client, abs_configured, abs_from_url, new_abs_client,
  sftp_configured, sftp_from_url, new_sftp_client,
}
use litestream.Config.{
  s3_type, gs_type, abs_type, sftp_type, Replica, client_type, replica_type, new_client,
  new_replica_from_config,
}
use litestream.Config.Settled.{Keeps, Keeps-self, Keeps-or_else, refused, bound, settled, set_of}

module _ (lib : Library) (parse_host : Text → HostParts) (c : ReplicaConfig) where
  abbrev S3Keeps : S3Settings → Type 0
  S3Keeps s =
      Keeps c.bucket s.bucket
      × Keeps c.path s.path
      × Keeps c.region s.region
      × Keeps c.endpoint s.endpoint
      × (s.access_key_id ≡ c.access_key_id)
      × (s.secret_access_key ≡ c.secret_access_key)
      × (s.skip_verify ≡ c.skip_verify)

  abbrev AbsKeeps : AbsSettings → Type 0
  AbsKeeps s =
      Keeps c.bucket s.bucket
      × Keeps c.path s.path
      × Keeps c.account_name s.account_name
      × (s.account_key ≡ c.account_key)
      × (s.endpoint ≡ c.endpoint)

  abbrev SftpKeeps : SftpSettings → Type 0
  SftpKeeps s =
      Keeps c.host s.host
      × Keeps c.user s.user
      × Keeps c.password s.password
      × Keeps c.path s.path
      × (s.key_path ≡ c.key_path)

  -- The client has the settings of the configuration, and what it cannot do without.
  abbrev pub Chosen : Client → Type 0
  Chosen (file_client path) =
      (given : Text) × (is_set given ≡ true) × Keeps c.path given × (expand lib given ≡ ok path)
  Chosen (s3_client s) = (is_set s.bucket ≡ true) × S3Keeps s
  Chosen (gs_client bucket path) =
      (is_set bucket ≡ true) × Keeps c.bucket bucket × Keeps c.path path
  Chosen (abs_client s) = (is_set s.bucket ≡ true) × AbsKeeps s
  Chosen (sftp_client s) = (is_set s.host ≡ true) × (is_set s.user ≡ true) × SftpKeeps s

  -- A client of a type.
  abbrev Made : Text → Client → Type 0
  Made t client = (is_set c.url && is_set c.path ≡ false) × (client_type client ≡ t) × Chosen client

  made :
      (t : Text) (k client : Client)
      → is_set c.url && is_set c.path ≡ false
      → client_type k ≡ t
      → Chosen k
      → k ≡ client
      → Made t client
  made t k client both type chosen same = subst (Made t) same (both, type, chosen)

  new_s3_client-Made :
      (client : Client) → new_s3_client lib parse_host c ≡ ok client → Made s3_type client
  unfolding new_s3_client
  new_s3_client-Made client h =
      let (both, h1) = refused _ _ _ client h in
      let (_, h2) = refused _ _ _ client h1 in
      let (s, q, h3) = bound _ _ client h2 in
      let (there, h4) = refused _ _ _ client h3 in
      let keeps : S3Keeps s =
        settled S3Keeps (is_set c.url) (checked (parse_replica_url lib c.url))
          (s3_from_url lib parse_host c) (s3_configured lib parse_host c) s
          (Keeps-self _, Keeps-self _, Keeps-self _, Keeps-self _, refl, refl, refl)
          (λ p. (
            Keeps-or_else _ _,
            Keeps-or_else _ _,
            Keeps-or_else _ _,
            Keeps-or_else _ _,
            refl,
            refl,
            refl,
          ))
          q in
      let same : s3_client s ≡ client = cc in
      made s3_type (s3_client s) client both refl (set_of s.bucket there, keeps) same

  new_file_client-Made :
      (client : Client) → new_file_client lib parse_host c ≡ ok client → Made file_type client
  unfolding new_file_client
  new_file_client-Made client h =
      let (both, h1) = refused _ _ _ client h in
      let (given, q, h2) = bound _ _ client h1 in
      let (there, h3) = refused _ _ _ client h2 in
      let (path, expanded, h4) = bound _ _ client h3 in
      let same : file_client path ≡ client = cc in
      made file_type (file_client path) client both refl
        (given, set_of given there, kept given both q, expanded) same
    where
      kept :
          (given : Text)
          → is_set c.url && is_set c.path ≡ false
          → (if is_set c.url
              then (checked (parse_replica_url lib c.url) >>= λ parts. ok parts.2)
              else ok c.path)
            ≡ ok given
          → Keeps c.path given
      kept given both q = elim (Bool-cases (is_set c.url)) [
        | inl u ↦ elim (Bool-cases (text_eq c.path [])) [
          | inl e ↦ rw e refl
          | inr e ↦ cc (rw (u, e) at both)
        ]
        | inr u ↦
            let same : c.path ≡ given = cc (rw u at q) in
            subst (Keeps c.path) same (Keeps-self c.path)
      ]

  new_gs_client-Made :
      (client : Client) → new_gs_client lib parse_host c ≡ ok client → Made gs_type client
  unfolding new_gs_client
  new_gs_client-Made client h =
      let (both, h1) = refused _ _ _ client h in
      let (_, h2) = refused _ _ _ client h1 in
      let (s, q, h3) = bound _ _ client h2 in
      let (there, h4) = refused _ _ _ client h3 in
      let keeps : Keeps c.bucket s.0 × Keeps c.path s.1 =
        settled (λ (s : Text × Text). Keeps c.bucket s.0 × Keeps c.path s.1) (is_set c.url)
          (checked (parse_replica_url lib c.url)) (gs_from_url lib parse_host c) (c.bucket, c.path)
          s (Keeps-self _, Keeps-self _) (λ p. (Keeps-or_else _ _, Keeps-or_else _ _)) q in
      let same : gs_client s.0 s.1 ≡ client = cc in
      made gs_type (gs_client s.0 s.1) client both refl (set_of s.0 there, keeps.0, keeps.1) same

  new_abs_client-Made :
      (client : Client) → new_abs_client lib parse_host c ≡ ok client → Made abs_type client
  unfolding new_abs_client
  new_abs_client-Made client h =
      let (both, h1) = refused _ _ _ client h in
      let (_, h2) = refused _ _ _ client h1 in
      let (s, q, h3) = bound _ _ client h2 in
      let (there, h4) = refused _ _ _ client h3 in
      let keeps : AbsKeeps s =
        settled AbsKeeps (is_set c.url) (lib.parse c.url) (abs_from_url lib parse_host c)
          (abs_configured lib parse_host c) s (Keeps-self _, Keeps-self _, Keeps-self _, refl, refl)
          (λ p. (Keeps-or_else _ _, Keeps-or_else _ _, Keeps-or_else _ _, refl, refl)) q in
      let same : abs_client s ≡ client = cc in
      made abs_type (abs_client s) client both refl (set_of s.bucket there, keeps) same

  new_sftp_client-Made :
      (client : Client) → new_sftp_client lib parse_host c ≡ ok client → Made sftp_type client
  unfolding new_sftp_client
  new_sftp_client-Made client h =
      let (both, h1) = refused _ _ _ client h in
      let (_, h2) = refused _ _ _ client h1 in
      let (s, q, h3) = bound _ _ client h2 in
      let (host, h4) = refused _ _ _ client h3 in
      let (user, h5) = refused _ _ _ client h4 in
      let keeps : SftpKeeps s =
        settled SftpKeeps (is_set c.url) (lib.parse c.url) (sftp_from_url lib parse_host c)
          (sftp_configured lib parse_host c) s
          (Keeps-self _, Keeps-self _, Keeps-self _, Keeps-self _, refl)
          (λ p. (Keeps-or_else _ _, Keeps-or_else _ _, Keeps-or_else _ _, Keeps-or_else _ _, refl))
          q in
      let same : sftp_client s ≡ client = cc in
      made sftp_type (sftp_client s) client both refl
        (set_of s.host host, set_of s.user user, keeps) same

  new_client-Made :
      (t : Text) (client : Client) → new_client lib parse_host c t ≡ ok client → Made t client
  unfolding new_client
  new_client-Made t client h = elim (Bool-cases (text_eq t file_type)) [
    | inl e ↦ typed file_type e (new_file_client-Made client (rw e at h))
    | inr e ↦ elim (Bool-cases (text_eq t s3_type)) [
      | inl e' ↦ typed s3_type e' (new_s3_client-Made client (rw (e, e') at h))
      | inr e' ↦ elim (Bool-cases (text_eq t gs_type)) [
        | inl e2 ↦ typed gs_type e2 (new_gs_client-Made client (rw (e, e', e2) at h))
        | inr e2 ↦ elim (Bool-cases (text_eq t abs_type)) [
          | inl e3 ↦ typed abs_type e3 (new_abs_client-Made client (rw (e, e', e2, e3) at h))
          | inr e3 ↦ elim (Bool-cases (text_eq t sftp_type)) [
            | inl e4 ↦
                typed sftp_type e4 (new_sftp_client-Made client (rw (e, e', e2, e3, e4) at h))
            | inr e4 ↦ cc (rw (e, e', e2, e3, e4) at h)
          ]
        ]
      ]
    ]
  ]
    where
      typed : (t' : Text) → text_eq t t' ≡ true → Made t' client → Made t client
      typed t' e m = subst (λ x. Made x client) (sym (eq_of_text_eq t t' e)) m

  pub new_replica_from_config-Configured :
      (r : Replica)
      → new_replica_from_config lib parse_host c ≡ ok r
      → (is_url c.path ≡ false)
        × (is_set c.url && is_set c.path ≡ false)
        × (client_type r.client ≡ replica_type lib parse_host c)
        × Chosen r.client
  unfolding new_replica_from_config
  new_replica_from_config-Configured r h =
      let (no_url, h1) = refused _ _ _ r h in
      let (client, q, h2) = bound _ _ r h1 in
      let same : client ≡ r.client = ap (λ x. x.client) (got h2) in
      let m = new_client-Made (replica_type lib parse_host c) client q in
      subst
        (λ k.
          (is_url c.path ≡ false)
          × (is_set c.url && is_set c.path ≡ false)
          × (client_type k ≡ replica_type lib parse_host c)
          × Chosen k)
        same (no_url, m.0, m.1, m.2)
    where
      got : {a b : Replica} → ◌≡◌ {A = Result Replica} (ok a) (ok b) → a ≡ b
      got e = cc
