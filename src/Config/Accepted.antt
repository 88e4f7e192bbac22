-- ===== src/Config/Accepted.antt =====
-- What internal/config/config.go accepts.
use kube_task.Base.{
  ℕ, ◌*◌, ◌≤◌, String, Bool, true, false, not, ◌&&◌, Option, ◌==◌, if◌then◌else◌, ℤ, pos, negsuc,
  ◌≡◌, refl, subst, arith, ◌⊎◌, inl, inr,
}
use kube_task.Config.{
  Config, Url, second, outside, Validated, valid, invalid, check, and_valid, validate_webhook,
  validate_smtp, finish_smtp, validate_config, trim_space,
}

check-valid :
    {A : Type 0} (fails : Bool) (text : String) (next : Validated A) (a : A)
    → check fails text next ≡ valid a
    → (fails ≡ false) × (next ≡ valid a)
unfolding check
check-valid true text next a h = absurd cc
check-valid false text next a h = (refl, h)

and_valid-valid :
    {A B : Type 0} (m : Validated A) (f : A → Validated B) (b : B)
    → and_valid m f ≡ valid b
    → (a : A) × (m ≡ valid a) × (f a ≡ valid b)
unfolding and_valid
and_valid-valid (valid a) f b h = (a, refl, h)
and_valid-valid (invalid text) f b h = absurd cc

-- An integer between two numbers.
abbrev pub Within : ℕ → ℕ → ℤ → Type 0
Within low high n = (k : ℕ) × (n ≡ pos k) × (low ≤ k) × (k ≤ high)

outside-Within : (low high : ℕ) (n : ℤ) → outside low high n ≡ false → Within low high n
outside-Within low high (pos k) h = (k, refl, ground arith, ground arith)
outside-Within low high (negsuc k) h = absurd (ground arith)

-- What holds of a configuration that is accepted.
abbrev pub WebhookOk : Config → Type 0
WebhookOk c =
    c.webhook_enabled ≡ true
    → Within second (30 * second) c.webhook_timeout × Within 0 5 c.webhook_max_retries

abbrev pub SmtpOk : Config → Type 0
SmtpOk c =
    c.smtp_enabled ≡ true
    → Within second (60 * second) c.smtp_timeout × Within 0 5 c.smtp_max_retries

abbrev pub AuthOk : Config → Type 0
AuthOk c =
    ((c.auth_enabled && c.auth_audience == "") ≡ false)
    × ((c.tenant_isolation_enabled && not c.auth_enabled) ≡ false)
    × ((not (c.auth_api_keys_file == "") && not c.auth_enabled) ≡ false)

valid-eq : {A : Type 0} (a b : A) → valid a ≡ valid b → a ≡ b
valid-eq a b h = cc

skipped :
    (enabled : Bool) (c d : Config) (next : Validated Config)
    → (if not enabled then valid c else next) ≡ valid d
    → ((enabled ≡ false) × (c ≡ d)) ⊎ ((enabled ≡ true) × (next ≡ valid d))
skipped true c d next h = inr (refl, h)
skipped false c d next h = inl (refl, cc)

module _ (parse_url : String → Option Url) where
  validate_webhook-WebhookOk :
      (c d : Config) → validate_webhook parse_url c ≡ valid d → AuthOk c → WebhookOk d × AuthOk d
  unfolding validate_webhook
  validate_webhook-WebhookOk c d h auth = elim (skipped c.webhook_enabled c d _ h) [
    | inl off ↦ (λ on. absurd (let e = off.1 in let o = off.0 in cc), subst AuthOk off.1 auth)
    | inr on ↦
        let (u, h1) = check-valid _ _ _ d on.1 in
        let (t, h2) = check-valid _ _ _ d h1 in
        let (r, h3) = check-valid _ _ _ d h2 in
        subst (λ x. WebhookOk x × AuthOk x) (valid-eq _ d h3)
          (
            (λ is. (
              outside-Within second (30 * second) c.webhook_timeout t,
              outside-Within 0 5 c.webhook_max_retries r,
            )),
            auth,
          )
  ]

module _ (split_host_port : String → Option (String × String))
    (parse_address : String → Option (String × String)) where
  validate_smtp-SmtpOk :
      (c d : Config)
      → validate_smtp split_host_port parse_address c ≡ valid d
      → WebhookOk c × AuthOk c
      → SmtpOk d × WebhookOk d × AuthOk d
  unfolding validate_smtp finish_smtp
  validate_smtp-SmtpOk c d h before = elim (skipped c.smtp_enabled c d _ h) [
    | inl off ↦
        let (w, a) = subst (λ x. WebhookOk x × AuthOk x) off.1 before in
        (λ on. absurd (let e = off.1 in let o = off.0 in cc), w, a)
    | inr on ↦
        let (a, h1) = check-valid _ _ _ d on.1 in
        let (b, h2) = check-valid _ _ _ d h1 in
        let (e, h3) = check-valid _ _ _ d h2 in
        let (f, h4) = check-valid _ _ _ d h3 in
        let (g, h5) = check-valid _ _ _ d h4 in
        let (rs, collected, h6) = and_valid-valid _ _ d h5 in
        let (t, h7) = check-valid _ _ _ d h6 in
        let (r, h8) = check-valid _ _ _ d h7 in
        subst (λ x. SmtpOk x × WebhookOk x × AuthOk x) (valid-eq _ d h8)
          (
            (λ is. (
              outside-Within second (60 * second) c.smtp_timeout t,
              outside-Within 0 5 c.smtp_max_retries r,
            )),
            before.0,
            before.1,
          )
  ]

  -- In a configuration that is accepted, an enabled webhook and enabled mails have between 0 and 5
  -- retries and a timeout from one second to 30 or 60 seconds; tenants and API keys come with
  -- authentication only, and authentication with an audience.
  pub validate_config-Ok :
      (parse_url : String → Option Url) (c d : Config)
      → validate_config split_host_port parse_address parse_url c ≡ valid d
      → SmtpOk d × WebhookOk d × AuthOk d
  unfolding validate_config
  validate_config-Ok parse_url c d h =
      let (a, h1) = check-valid _ _ _ d h in
      let (b, h2) = check-valid _ _ _ d h1 in
      let (e, h3) = check-valid _ _ _ d h2 in
      let (m, h4, h5) = and_valid-valid _ _ d h3 in
      validate_smtp-SmtpOk m d h5 (
        validate_webhook-WebhookOk parse_url
          (record c { auth_audience = trim_space c.auth_audience }) m h4 (a, b, e))
