-- ===== src/Notification/Transport.antt =====
-- What the senders make of an answer: internal/notification/webhook.go and smtp.go. The HTTP client,
-- the dialer and the SMTP client are parameters: their answers are data, and their calls act on a
-- state.
pub mod Outcome
use kube_task.Base.{
  ℕ, ◌*◌, ◌^◌, ◌%◌, ◌-◌, String, Bool, true, false, not, ◌&&◌, ◌||◌, Option, none, some, List, [],
  ◌∷◌, ◌==◌, if◌then◌else◌, leb, ltb, nat_eq, ℤ, pos, negsuc, ltb_ℤ, int64,
}
use kube_task.Api.{Duration}

pub record AttemptResult : Type 0 where
  pub status : ℕ
  pub delivered : Bool
  pub retry : Bool
  pub reason : String

-- `attemptResult{retry: retry, reason: reason}`
abbrev pub undelivered : Bool → String → AttemptResult
undelivered retry reason = record { status = 0; delivered = false; retry = retry; reason = reason }

abbrev pub second : ℕ
second = 1000000000

abbrev pub min_ℤ : ℤ → ℤ → ℤ
min_ℤ a b = if ltb_ℤ b a then b else a

-- `time.Second << retry` on 64 bits, and at most 30 seconds.
unfoldable pub retry_delay : ℕ → Duration
retry_delay retry = min_ℤ (int64 (second * 2 ^ retry % 18446744073709551616)) (pos 30000000000)

-- What `http.Client.Do` answers, and the error of `http.NewRequestWithContext`.
pub data HttpAnswer : Type 0 where
  invalid_request : HttpAnswer
  transport_error : (timeout : Bool) → HttpAnswer
  response : (status : ℕ) → HttpAnswer

-- `webhook.send`, after the call; `cancelled` is `ctx.Err() != nil` then.
unfoldable pub webhook_result : (cancelled : Bool) → HttpAnswer → AttemptResult
webhook_result cancelled HttpAnswer.invalid_request = undelivered false "request_invalid"
webhook_result cancelled (HttpAnswer.transport_error timeout) =
    if cancelled
    then undelivered false "canceled"
    else undelivered true (if timeout then "timeout" else "network_error")
webhook_result cancelled (HttpAnswer.response status) = record {
  status = status;
  delivered = leb 200 status && leb status 299;
  retry = nat_eq status 429 || leb 500 status && leb status 599;
  reason = "http_status";
}

-- What `smtpFailure` tells apart: a reply of the server with its code, a certificate that does not
-- verify, an error of the network or the end of the stream, and anything else.
pub data SmtpError : Type 0 where
  reply : (code : ℕ) → SmtpError
  certificate network other : SmtpError

unfoldable pub smtp_failure : SmtpError → String → AttemptResult
smtp_failure (SmtpError.reply code) stage = record {
  status = code;
  delivered = false;
  retry = leb 400 code && ltb code 500;
  reason = stage;
}
smtp_failure err stage =
    if stage == "smtp_ack" then undelivered false "smtp_ack_unknown" else elim err [
      | SmtpError.certificate ↦ undelivered false "smtp_certificate"
      | SmtpError.network ↦ undelivered true stage
      | _ ↦ undelivered false stage
    ]

-- The calls of `smtpSender.send` on the dialer and on the SMTP client; each may fail.
pub record SmtpClient (S : Type 0) : Type 0 where
  pub connect : S → Option SmtpError × S
  pub greet : S → Option SmtpError × S
  pub start_tls : S → Option SmtpError × S
  pub authenticate : S → Option SmtpError × S
  pub mail : String → S → Option SmtpError × S
  pub rcpt : String → S → Option SmtpError × S
  pub open_data : S → Option SmtpError × S
  pub write : String → S → Option SmtpError × S
  pub close_data : S → Option SmtpError × S

pub record SmtpOptions : Type 0 where
  pub address : String
  pub tls_mode : String
  pub username : String
  pub password : String
  pub from : String
  pub to : List String

abbrev pub smtp_accepted : AttemptResult
smtp_accepted = record { status = 250; delivered = true; retry = false; reason = "smtp_accepted" }

module _ {S : Type 0} where
  -- One call: its error ends `send` with the result of its stage.
  unfoldable pub stage :
      String → (S → Option SmtpError × S) → (S → AttemptResult × S) → S → AttemptResult × S
  stage name call next s =
      let (failure, s') = call s in
      elim failure [ some e ↦ (smtp_failure e name, s') | none ↦ next s' ]

  -- A call that the options may leave out.
  unfoldable pub optional : Bool → (S → Option SmtpError × S) → S → Option SmtpError × S
  optional wanted call s = if wanted then call s else (none, s)

  module _ (client : SmtpClient S) (options : SmtpOptions) where
    unfoldable pub send_recipients : List String → (S → AttemptResult × S) → S → AttemptResult × S
    send_recipients [] next s = next s
    send_recipients (r ∷ rs) next s =
        stage "smtp_recipient" (client.rcpt r) (send_recipients rs next) s

    -- From `client.Data()` on.
    unfoldable pub send_body : String → S → AttemptResult × S
    send_body body s =
        stage "smtp_data" client.open_data
          (stage "smtp_write" (client.write body)
            (stage "smtp_ack" client.close_data (λ t. (smtp_accepted, t))))
          s

    unfoldable pub smtp_send : String → S → AttemptResult × S
    unfolding send_recipients send_body
    smtp_send body s =
        stage "smtp_connect" client.connect
          (stage "smtp_greeting" client.greet (
            stage "smtp_starttls" (optional (options.tls_mode == "starttls") client.start_tls) (
              stage "smtp_auth" (optional (not (options.username == "")) client.authenticate) (
                stage "smtp_sender" (client.mail options.from)
                  (send_recipients options.to (send_body body))))))
          s
