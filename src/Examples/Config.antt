-- ===== src/Examples/Config.antt =====
-- A configuration of mails that internal/config accepts.
use kube_task.Base.{
  String, String_discrete, true, false, Option, some, none, [], ◌∷◌, ◌≡◌, refl, pos,
}
use kube_task.Http.Pages.{atoi}
use kube_task.Config.{Config, Url, check, and_valid, valid, validate_config}
use kube_task.Config.Accepted.{SmtpOk, WebhookOk, AuthOk, validate_config-Ok}

-- Mails over one server, for one recipient.
abbrev mail_config : Config
mail_config = record {
  auth_enabled = true;
  auth_audience = "kubetask";
  auth_api_keys_file = "";
  tenant_isolation_enabled = true;
  webhook_enabled = false;
  webhook_url = "";
  webhook_timeout = pos 0;
  webhook_max_retries = pos 3;
  smtp_enabled = true;
  smtp_address = "mail:25";
  smtp_tls = "implicit";
  smtp_username = "";
  smtp_password = "";
  smtp_from = "a@b";
  smtp_to = "c@d" ∷ [];
  smtp_timeout = pos 10000000000;
  smtp_max_retries = pos 3;
}

abbrev host_and_port : String → Option (String × String)
host_and_port address = some ("mail", "25")

abbrev bare_address : String → Option (String × String)
bare_address value = some ("", value)

abbrev no_url : String → Option Url
no_url text = none

mail_config-valid :
    validate_config host_and_port bare_address no_url mail_config ≡ valid mail_config
unfolding validate_config check and_valid atoi String_discrete
mail_config-valid = refl

validate_config-Ok_example : SmtpOk mail_config × WebhookOk mail_config × AuthOk mail_config
validate_config-Ok_example =
    validate_config-Ok host_and_port bare_address no_url mail_config mail_config mail_config-valid
