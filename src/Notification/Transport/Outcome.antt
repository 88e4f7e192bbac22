-- ===== src/Notification/Transport/Outcome.antt =====
-- What the dispatcher may conclude from the results of the senders in internal/notification.
use kube_task.Base.{
  ℕ, zero, suc, ◌≤◌, ◌*◌, String, Bool, true, false, Option, none, some, List, [], ◌∷◌, ◌==◌, pos,
  String_discrete, ◌≡◌, refl, sym, ap, subst, ◌∙◌, arith,
}
use kube_task.Notification.Transport.{
  second, AttemptResult, retry_delay, SmtpError, smtp_failure, SmtpClient, SmtpOptions,
  smtp_accepted, stage, optional, send_recipients, send_body, smtp_send,
}

ack-is_ack : ("smtp_ack" == "smtp_ack") ≡ true
unfolding String_discrete
ack-is_ack = refl

-- A failure without a reply to the end of the message is not retried.
smtp_failure-ack :
    (e : SmtpError)
    → (smtp_failure e "smtp_ack").retry ≡ true
    → (code : ℕ) × (e ≡ SmtpError.reply code)
unfolding smtp_failure
smtp_failure-ack (SmtpError.reply code) h = (code, refl)
smtp_failure-ack SmtpError.certificate h = absurd (let e = ack-is_ack in cc)
smtp_failure-ack SmtpError.network h = absurd (let e = ack-is_ack in cc)
smtp_failure-ack SmtpError.other h = absurd (let e = ack-is_ack in cc)

-- What the server has of the message, and what SMTP says of it: it takes a message only at the end
-- of the data, and not if it replies there with an error.
pub record Taken {S : Type 0} (client : SmtpClient S) (taken : S → Bool) : Type 0 where
  pub connect : (s : S) → taken (client.connect s).1 ≡ taken s
  pub greet : (s : S) → taken (client.greet s).1 ≡ taken s
  pub start_tls : (s : S) → taken (client.start_tls s).1 ≡ taken s
  pub authenticate : (s : S) → taken (client.authenticate s).1 ≡ taken s
  pub mail : (from : String) (s : S) → taken (client.mail from s).1 ≡ taken s
  pub rcpt : (to : String) (s : S) → taken (client.rcpt to s).1 ≡ taken s
  pub open_data : (s : S) → taken (client.open_data s).1 ≡ taken s
  pub write : (body : String) (s : S) → taken (client.write body s).1 ≡ taken s
  pub close_data :
      (s : S) (code : ℕ)
      → (client.close_data s).0 ≡ some (SmtpError.reply code)
      → taken (client.close_data s).1 ≡ taken s

module _ {S : Type 0} (taken : S → Bool) where
  -- A result that asks for a retry leaves the message with the sender only.
  abbrev Retryable : AttemptResult × S → Type 0
  Retryable (r, s) = r.retry ≡ true → taken s ≡ false

  -- What a stage does with the answer of its call.
  abbrev answer : String → (S → AttemptResult × S) → Option SmtpError × S → AttemptResult × S
  answer name next (some e, t) = (smtp_failure e name, t)
  answer name next (none, t) = next t

  answer-Retryable :
      (name : String) (next : S → AttemptResult × S) (c : Option SmtpError × S)
      → taken c.1 ≡ false
      → ((t : S) → taken t ≡ false → Retryable (next t))
      → Retryable (answer name next c)
  answer-Retryable name next (some e, t) h more = λ r. h
  answer-Retryable name next (none, t) h more = more t h

  stage-answer :
      (name : String) (call : S → Option SmtpError × S) (next : S → AttemptResult × S) (s : S)
      → stage name call next s ≡ answer name next (call s)
  unfolding stage
  stage-answer name call next s =
      elim (call s).0
        as (λ f.
          elim f as (λ _. AttemptResult × S) [
            | some e ↦ (smtp_failure e name, (call s).1)
            | none ↦ next (call s).1
          ]
          ≡ answer name next (f, (call s).1)) [ some e ↦ refl | none ↦ refl ]

  stage-Retryable :
      (name : String) (call : S → Option SmtpError × S) (next : S → AttemptResult × S) (s : S)
      → taken (call s).1 ≡ false
      → ((t : S) → taken t ≡ false → Retryable (next t))
      → Retryable (stage name call next s)
  stage-Retryable name call next s h more =
      subst Retryable (sym (stage-answer name call next s))
        (answer-Retryable name next (call s) h more)

  optional-taken :
      (wanted : Bool) (call : S → Option SmtpError × S) (s : S)
      → taken (call s).1 ≡ taken s
      → taken (optional wanted call s).1 ≡ taken s
  unfolding optional
  optional-taken true call s h = h
  optional-taken false call s h = refl

  -- The answer to the end of the data: only an error reply asks for another attempt.
  ack-Retryable :
      (c : Option SmtpError × S)
      → ((code : ℕ) → c.0 ≡ some (SmtpError.reply code) → taken c.1 ≡ false)
      → Retryable (answer "smtp_ack" (λ t. (smtp_accepted, t)) c)
  ack-Retryable (some e, t) refused =
      λ r. let (code, same) = smtp_failure-ack e r in refused code (ap some same)
  ack-Retryable (none, t) refused = λ r. absurd (let e = r in cc)

module _ {S : Type 0} (client : SmtpClient S) (options : SmtpOptions) (taken : S → Bool) where
  module _ (server : Taken client taken) where
    close-Retryable :
        (u : S)
        → taken u ≡ false
        → Retryable taken (stage "smtp_ack" client.close_data (λ t. (smtp_accepted, t)) u)
    close-Retryable u h =
        subst (Retryable taken) (sym (stage-answer taken "smtp_ack" client.close_data _ u))
          (ack-Retryable taken (client.close_data u) (λ code e. server.close_data u code e ∙ h))

    send_body-Retryable :
        (body : String) (s : S)
        → taken s ≡ false
        → Retryable taken (send_body client options body s)
    unfolding send_body
    send_body-Retryable body s h =
        stage-Retryable taken "smtp_data" _ _ s (server.open_data s ∙ h) (λ t h1.
          stage-Retryable taken "smtp_write" _ _ t (server.write body t ∙ h1)
            (λ u h2. close-Retryable u h2))

    send_recipients-Retryable :
        (rs : List String) (next : S → AttemptResult × S)
        → ((t : S) → taken t ≡ false → Retryable taken (next t))
        → (s : S) → taken s ≡ false
        → Retryable taken (send_recipients client options rs next s)
    unfolding send_recipients
    send_recipients-Retryable [] next more s h = more s h
    send_recipients-Retryable (r ∷ rs) next more s h =
        stage-Retryable taken "smtp_recipient" _ _ s (server.rcpt r s ∙ h)
          (send_recipients-Retryable rs next more)

  -- Where the server takes a message only at the end of the data, and not if it replies there with an
  -- error, a send that asks for another attempt leaves the server without the message.
  pub smtp_send-Retryable :
      Taken client taken
      → (body : String) (s : S) → taken s ≡ false
      → (smtp_send client options body s).0.retry ≡ true
      → taken (smtp_send client options body s).1 ≡ false
  unfolding smtp_send
  smtp_send-Retryable server body s h =
      stage-Retryable taken "smtp_connect" _ _ s (server.connect s ∙ h) (λ s1 h1.
        stage-Retryable taken "smtp_greeting" _ _ s1 (server.greet s1 ∙ h1) (λ s2 h2.
          stage-Retryable taken "smtp_starttls" _ _ s2
            (optional-taken taken _ _ s2 (server.start_tls s2) ∙ h2)
            (λ s3 h3.
              stage-Retryable taken "smtp_auth" _ _ s3
                (optional-taken taken _ _ s3 (server.authenticate s3) ∙ h3)
                (λ s4 h4.
                  stage-Retryable taken "smtp_sender" _ _ s4 (server.mail options.from s4 ∙ h4) (
                    send_recipients-Retryable server options.to _
                      (send_body-Retryable server body))))))

-- Before each of the first six retries the dispatcher waits from one second to thirty: the shift of
-- 64 bits does not overflow there.
retry_delay-bounds :
    (retry : ℕ)
    → retry ≤ 5
    → (delay : ℕ) × (retry_delay retry ≡ pos delay) × (second ≤ delay) × (delay ≤ 30 * second)
unfolding retry_delay
retry_delay-bounds zero h = (1 * second, refl, omega arith, omega arith)
retry_delay-bounds (suc zero) h = (2 * second, refl, omega arith, omega arith)
retry_delay-bounds (suc (suc zero)) h = (4 * second, refl, omega arith, omega arith)
retry_delay-bounds (suc (suc (suc zero))) h = (8 * second, refl, omega arith, omega arith)
retry_delay-bounds (suc (suc (suc (suc zero)))) h = (16 * second, refl, omega arith, omega arith)
retry_delay-bounds (suc (suc (suc (suc (suc zero))))) h =
    (30 * second, refl, omega arith, omega arith)
retry_delay-bounds (suc (suc (suc (suc (suc (suc n)))))) h = absurd (omega arith)
