-- ===== src/Webhooks/Sender.antt =====
-- webhooks/sender.rs: one attempt to deliver a webhook. The signature and the HTTP client are
-- parameters.
use minotari_cli.Base.{Bool, Option, String, if◌then◌else◌, leb, ltb, none, some, ℕ, ◌&&◌}
use minotari_cli.Db.Tables.{WebhookRow}

-- The messages of a failure, by what they are made of.
pub data DeliveryError : Type 0 where
  signing_error : DeliveryError
  client_error : ℕ → ℕ → DeliveryError
  server_error : ℕ → DeliveryError
  network_error : DeliveryError

pub data DeliveryResult : Type 0 where
  success : DeliveryResult
  retryable_failure : DeliveryError → DeliveryResult
  permanent_failure : DeliveryError → DeliveryResult

-- the client's answer: the code of the status, and the first characters of the body
pub record Response : Type 0 where
  pub code : ℕ
  pub body : ℕ

-- HMAC-SHA256 over the time and the payload, and a POST; `none` where they fail. The payload is made
-- of the row that was queued.
pub record Http : Type 0 where
  pub sign_payload : ℕ → ℕ → WebhookRow → Option ℕ
  pub post : String → ℕ → ℕ → WebhookRow → Option Response

abbrev is_success : ℕ → Bool
is_success code = leb 200 code && ltb code 300

abbrev is_client_error : ℕ → Bool
is_client_error code = leb 400 code && ltb code 500

abbrev verdict_on : Response → DeliveryResult
verdict_on r =
    if is_success r.code
    then DeliveryResult.success
    else (if is_client_error r.code
        then DeliveryResult.permanent_failure (client_error r.code r.body)
        else DeliveryResult.retryable_failure (server_error r.code))

unfoldable pub send : Http → ℕ → ℕ → WebhookRow → DeliveryResult
send http secret now row = elim (http.sign_payload secret now row) [
  | none ↦ DeliveryResult.permanent_failure signing_error
  | some signature ↦ elim (http.post row.target_url signature now row) [
    | none ↦ DeliveryResult.retryable_failure network_error
    | some response ↦ verdict_on response
  ]
]
