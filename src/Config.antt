-- ===== src/Config.antt =====
-- The checks of internal/config/config.go on a configuration that viper has read. The parsers of
-- packages net, net/mail and net/url are parameters: `split_host_port` gives a host and a port as
-- text, `parse_address` a name and an address.
pub mod Accepted
use kube_task.Base.{
  ℕ, ◌*◌, String, Bool, true, false, not, ◌&&◌, ◌||◌, Option, none, some, List, [], ◌∷◌, ◌++◌, ◌==◌,
  if◌then◌else◌, elem, any, length, nat_eq, leb, ltb, ℤ, pos, negsuc, ltb_ℤ, Char, code, chars,
  of_list, trim_start, trim_end, contains,
}
use kube_task.Api.{Duration}
use kube_task.Http.Pages.{atoi}

-- The settings that the checks read.
pub record Config : Type 0 where
  pub auth_enabled : Bool
  pub auth_audience : String
  pub auth_api_keys_file : String
  pub tenant_isolation_enabled : Bool
  pub webhook_enabled : Bool
  pub webhook_url : String
  pub webhook_timeout : Duration
  pub webhook_max_retries : ℤ
  pub smtp_enabled : Bool
  pub smtp_address : String
  pub smtp_tls : String
  pub smtp_username : String
  pub smtp_password : String
  pub smtp_from : String
  pub smtp_to : List String
  pub smtp_timeout : Duration
  pub smtp_max_retries : ℤ

-- A parsed URL, as far as it is looked at.
pub record Url : Type 0 where
  pub scheme : String
  pub hostname : String
  pub has_user : Bool

-- `strings.TrimSpace`
unfoldable pub trim_space : String → String
unfolding chars trim_start trim_end
trim_space s = of_list (trim_end (trim_start (chars s)))

-- `strings.ContainsAny`, with the codes of the characters.
unfoldable pub contains_any : List ℕ → String → Bool
unfolding chars contains
contains_any codes s = any (λ n. contains n (chars s)) codes

abbrev pub second : ℕ
second = 1000000000

-- `n < low || n > high`
abbrev pub outside : (low high : ℕ) → ℤ → Bool
outside low high n = ltb_ℤ n (pos low) || ltb_ℤ (pos high) n

abbrev pub is_printable : Char → Bool
is_printable c = ltb 32 (code c) && ltb (code c) 127

-- A character that an address may not have.
abbrev pub is_unprintable : Char → Bool
is_unprintable c = not (is_printable c)

-- The result of a check: the configuration with its texts trimmed, or the text of the error.
pub data Validated (A : Type 0) : Type 0 where
  valid : A → Validated A
  invalid : String → Validated A

unfoldable pub check : {A : Type 0} → Bool → String → Validated A → Validated A
check fails text next = if fails then invalid text else next

unfoldable pub and_valid : {A B : Type 0} → Validated A → (A → Validated B) → Validated B
and_valid (valid a) f = f a
and_valid (invalid text) f = invalid text

abbrev pub is_empty : String → Bool
is_empty s = s == ""

-- One of the two is set and the other is not.
abbrev pub differ : Bool → Bool → Bool
differ true b = not b
differ false b = b

abbrev pub lacks_recipients : List String → Bool
lacks_recipients [] = true
lacks_recipients (r ∷ rs) = false

module _ (parse_url : String → Option Url) where
  abbrev pub bad_url : String → Option Url → Bool
  bad_url text none = true
  bad_url text (some u) =
      u.hostname == ""
      || (not (u.scheme == "http" || u.scheme == "https")
          || (u.has_user || contains_any (35 ∷ []) text))

  unfoldable pub validate_webhook : Config → Validated Config
  unfolding trim_space contains_any
  validate_webhook c =
      if not c.webhook_enabled
      then valid c
      else let url = trim_space c.webhook_url in
        check (bad_url url (parse_url url))
          "webhook-url must be an HTTP(S) URL with a host and without userinfo or fragment"
          (check (outside second (30 * second) c.webhook_timeout)
            "webhook-timeout must be between 1s and 30s"
            (check (outside 0 5 c.webhook_max_retries) "webhook-max-retries must be between 0 and 5"
              (valid (record c { webhook_url = url }))))

module _ (split_host_port : String → Option (String × String))
    (parse_address : String → Option (String × String)) where
  -- The port with the error of `Atoi`, which gives a value outside the bounds or 0 there.
  abbrev pub bad_host : Option (String × String) → Bool
  bad_host none = true
  bad_host (some (host, port)) =
      host == ""
      || (contains_any (47 ∷ 92 ∷ 64 ∷ 32 ∷ 9 ∷ 13 ∷ 10 ∷ []) host || outside 1 65535 (atoi port))

  abbrev pub plain_address : String → Option (String × String) → Bool
  plain_address value none = false
  plain_address value (some (name, address)) = name == "" && address == value

  unfoldable pub valid_smtp_address : String → Bool
  unfolding chars
  valid_smtp_address value =
      plain_address value (parse_address value) && not (any is_unprintable (chars value))

  -- The recipients, trimmed, each of them once.
  unfoldable pub collect_recipients : List String → List String → Validated (List String)
  unfolding trim_space valid_smtp_address
  collect_recipients kept [] = valid kept
  collect_recipients kept (r ∷ rs) =
      let recipient = trim_space r in
      check (not (valid_smtp_address recipient)) "smtp-to must contain bare ASCII email addresses"
        (collect_recipients (if elem recipient kept then kept else kept ++ recipient ∷ []) rs)

  -- The last checks, once the recipients are collected.
  unfoldable pub finish_smtp : Config → List String → Validated Config
  unfolding trim_space
  finish_smtp c recipients =
      check (outside second (60 * second) c.smtp_timeout) "smtp-timeout must be between 1s and 60s"
        (check (outside 0 5 c.smtp_max_retries) "smtp-max-retries must be between 0 and 5" (
          valid (record c {
            smtp_address = trim_space c.smtp_address;
            smtp_from = trim_space c.smtp_from;
            smtp_to = recipients;
          })))

  unfoldable pub validate_smtp : Config → Validated Config
  unfolding contains_any trim_space valid_smtp_address collect_recipients finish_smtp
  validate_smtp c =
      if not c.smtp_enabled
      then valid c
      else check (bad_host (split_host_port (trim_space c.smtp_address)))
          "smtp-address must contain a host and a port between 1 and 65535"
          (check (not (c.smtp_tls == "starttls" || c.smtp_tls == "implicit"))
            "smtp-tls must be starttls or implicit"
            (check
              (differ (is_empty c.smtp_username) (is_empty c.smtp_password)
                || (contains_any (0 ∷ 13 ∷ 10 ∷ []) c.smtp_username
                    || contains_any (0 ∷ 13 ∷ 10 ∷ []) c.smtp_password))
              "smtp-username and smtp-password must both be set or both be empty, without NUL or line breaks"
              (check (not (valid_smtp_address (trim_space c.smtp_from)))
                "smtp-from must be a bare ASCII email address"
                (check (lacks_recipients c.smtp_to)
                  "smtp-to must contain at least one email address"
                  (and_valid (collect_recipients [] c.smtp_to) (finish_smtp c))))))

  -- The part of `LoadConfig` behind `Unmarshal`.
  unfoldable pub validate_config : (parse_url : String → Option Url) → Config → Validated Config
  unfolding trim_space validate_webhook validate_smtp
  validate_config parse_url config =
      let c = record config { auth_audience = trim_space config.auth_audience } in
      check (c.auth_enabled && c.auth_audience == "")
        "auth-audience is required when auth-enabled is true"
        (check (c.tenant_isolation_enabled && not c.auth_enabled)
          "tenant-isolation-enabled requires auth-enabled"
          (check (not (c.auth_api_keys_file == "") && not c.auth_enabled)
            "auth-api-keys-file requires auth-enabled"
            (and_valid (validate_webhook parse_url c) validate_smtp)))
