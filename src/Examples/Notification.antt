-- ===== src/Examples/Notification.antt =====
-- The notifications of one failed Job.
use kube_task.Base.{
  ℕ, zero, suc, ◌≤◌, ◌<◌, String, String_discrete, Bool, true, false, some, none, List, [], ◌∷◌,
  ◌++◌, ◌≡◌, refl, pos, len, concat,
}
use kube_task.Api.{TaskType}
use kube_task.Notification.Event.{Event, ExecutionInfo, event_failed, message_limit, truncate}
use kube_task.Notification.Event.Message.{IsCut, truncate-IsCut}
use kube_task.Notification.Queue.{DeliveryState, enqueue}
use kube_task.Notification.Workers.{System, start_system, here, next, observe}
use kube_task.Notification.Workers.Inv.{SystemInv, Reach-Inv}
use kube_task.Notification.Transport.{
  AttemptResult, HttpAnswer, webhook_result, SmtpError, SmtpClient, SmtpOptions, smtp_failure,
  smtp_send, send_recipients, send_body, stage, optional,
}
use kube_task.Notification.Transport.Outcome.{Taken, smtp_send-Retryable}
use kube_task.Notification.Delivery.{Sender, deliver}
use kube_task.Notification.Delivery.Progress.{Undisturbed, deliver-Ends}

-- Three bytes for each.
abbrev days : ℕ → String
days zero = ""
days (suc n) = concat ("日" ∷ days n ∷ [])

abbrev long_execution : ExecutionInfo
long_execution = record {
  job_name = "backup-1";
  job_uid = "7d1";
  namespace = "default";
  reason = "BackoffLimitExceeded";
  message = days 1366;
  message_truncated = false;
}

abbrev failed_job : Event
failed_job = record {
  version = "1";
  id = "job:7d1:failed";
  type = event_failed;
  occurred_at = some (pos 3);
  observed_at = pos 4;
  task = record { name = "backup"; uid = "5ac"; type = TaskType.cron };
  execution = record long_execution { message = "no space left" };
  workflow = none;
}

truncate-IsCut_example :
    (len (days 1366) ≤ message_limit → truncate long_execution ≡ long_execution)
    × (message_limit < len (days 1366)
        → IsCut message_limit (days 1366) (truncate long_execution).message
          × ((truncate long_execution).message_truncated ≡ true))
truncate-IsCut_example = truncate-IsCut long_execution

abbrev observed_once : System
observed_once = record start_system {
  dispatcher = (enqueue (pos 5) failed_job start_system.dispatcher).0;
}

Reach-Inv_example : SystemInv observed_once
Reach-Inv_example = Reach-Inv (next here (observe failed_job (pos 5)))

-- A server that answers the end of a message with a transient error; the state is whether it has
-- the message.
abbrev busy_server : SmtpClient Bool
busy_server = record {
  connect = λ s. (none, s);
  greet = λ s. (none, s);
  start_tls = λ s. (none, s);
  authenticate = λ s. (none, s);
  mail = λ from s. (none, s);
  rcpt = λ to s. (none, s);
  open_data = λ s. (none, s);
  write = λ body s. (none, s);
  close_data = λ s. (some (SmtpError.reply 451), s);
}

abbrev smtp_options : SmtpOptions
smtp_options = record {
  address = "mail.example.org:587";
  tls_mode = "starttls";
  username = "kubetask";
  password = "secret";
  from = "kubetask@example.org";
  to = "ops@example.org" ∷ [];
}

abbrev identity : Bool → Bool
identity s = s

busy_server-Taken : Taken busy_server identity
busy_server-Taken = record {
  connect = λ s. refl;
  greet = λ s. refl;
  start_tls = λ s. refl;
  authenticate = λ s. refl;
  mail = λ from s. refl;
  rcpt = λ to s. refl;
  open_data = λ s. refl;
  write = λ body s. refl;
  close_data = λ s code h. refl;
}

busy_server-retry : (smtp_send busy_server smtp_options "Subject: x" false).0.retry ≡ true
unfolding smtp_send send_recipients send_body stage optional smtp_failure String_discrete
busy_server-retry = refl

smtp_send-Retryable_example :
    identity (smtp_send busy_server smtp_options "Subject: x" false).1 ≡ false
smtp_send-Retryable_example =
    smtp_send-Retryable busy_server smtp_options identity busy_server-Taken "Subject: x" false refl
      busy_server-retry

-- A webhook that answers 503, with the log of the answers as the state.
abbrev unavailable : AttemptResult
unavailable = webhook_result false (HttpAnswer.response 503)

abbrev unavailable_sender : Sender (List AttemptResult)
unavailable_sender = record {
  encode = λ e. some e.id;
  send = λ id body s. (unavailable, s ++ unavailable ∷ []);
  cancelled = λ s. (false, s);
  wait = λ delay s. (true, s);
}

abbrev whole_log : List AttemptResult → List AttemptResult
whole_log s = s

unavailable_sender-Undisturbed : Undisturbed unavailable_sender
unavailable_sender-Undisturbed = record { lives = λ s. refl; waits = λ delay s. refl }

deliver-Ends_example :
    (state : DeliveryState) × ((deliver unavailable_sender 1 (λ e s. (e, s)) failed_job []).0
      ≡ some state)
deliver-Ends_example =
    deliver-Ends unavailable_sender 1 (λ e s. (e, s)) failed_job [] unavailable_sender-Undisturbed
