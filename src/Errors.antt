-- ===== src/Errors.antt =====
-- The exceptions of app/core/errors.py and what HTTP says of those that the task service raises.
use ktb4_2nd_ai.Prelude.{
  ℕ, ◌≡◌, String, Option, none, some, List, [], ◌∷◌, str_eq, ◌==◌, if◌then◌else◌, arith, ◌⊎◌,
}
use ktb4_2nd_ai.Schemas.{ErrorCode, http_status, default_message, DetailValue, ErrorBody}
use ktb4_2nd_ai.Tasks.{Request, Settings, Service, Worker, raised}
use ktb4_2nd_ai.Tasks.Methods.{admission, admitted, submit}

-- `message or DEFAULT_MESSAGE[code]`: an empty text counts as absent
unfoldable pub message_or : ErrorCode → Option String → String
unfolding default_message
message_or code none = default_message code
message_or code (some m) = if str_eq m "" then default_message code else m

-- `AppError`
pub record AppError : Type 0 where
  pub body : ErrorBody
  pub status : ℕ

-- `http_status or HTTP_STATUS.get(code, 500)`
unfoldable pub status_or : ErrorCode → Option ℕ → ℕ
unfolding http_status
status_or code none = http_status code
status_or code (some n) = if n == 0 then http_status code else n

-- `AppError.__init__`; `to_body` gives the field `body`
unfoldable pub new_error :
    ErrorCode → Option String → List (String × DetailValue) → Option ℕ → AppError
unfolding message_or status_or
new_error code message detail status = record {
  body = record { code = code; message = message_or code message; detail = detail };
  status = status_or code status;
}

-- `PipelineError` and its subclasses
pub data PipelineError : Type 0 where
  plain : Option String → List (String × DetailValue) → PipelineError
  pipeline_cancelled : Option String → List (String × DetailValue) → PipelineError
  download_failed : List String → PipelineError
  decode_failed : List ℕ → PipelineError

-- the fields `code`, `message` and `detail`
unfoldable pub pipeline_body : PipelineError → ErrorBody
unfolding message_or
pipeline_body (plain message detail) = record {
  code = ErrorCode.internal_error;
  message = message_or ErrorCode.internal_error message;
  detail = detail;
}
pipeline_body (pipeline_cancelled message detail) = record {
  code = ErrorCode.canceled;
  message = message_or ErrorCode.canceled message;
  detail = detail;
}
pipeline_body (download_failed keys) = record {
  code = ErrorCode.download_failed;
  message = message_or ErrorCode.download_failed none;
  detail = ("keys", DetailValue.texts keys) ∷ [];
}
pipeline_body (decode_failed ids) = record {
  code = ErrorCode.decode_failed;
  message = message_or ErrorCode.decode_failed none;
  detail = ("ids", DetailValue.numbers ids) ∷ [];
}

admission-status :
    (cfg : Settings) (w : Worker) (k : ℕ) (s : Service) (e : ErrorCode)
    → admission cfg w k s ≡ some e
    → (status_or e none ≡ 409) ⊎ (status_or e none ≡ 429) ⊎ (status_or e none ≡ 503)
unfolding admission status_or http_status
admission-status cfg w k s e h = ground (arith, h)

admitted-raised :
    (o : Option ErrorCode) (cfg : Settings) (w : Worker) (k : ℕ) (request : Request) (now : ℕ)
    (s : Service) (e : ErrorCode)
    → (admitted o cfg w k request now s).0 ≡ raised e
    → o ≡ some e
unfolding admitted
admitted-raised none cfg w k request now s e h = absurd (cc)
admitted-raised (some x) cfg w k request now s e h = cc

-- A POST that the task service refuses is answered with status 409, 429 or 503, never with 500.
pub submit-new_error :
    (cfg : Settings) (w : Worker) (k : ℕ) (request : Request) (now : ℕ) (s : Service)
    (e : ErrorCode)
    → (submit cfg w k request now s).0 ≡ raised e
    → ((new_error e none [] none).status ≡ 409)
      ⊎ ((new_error e none [] none).status ≡ 429)
      ⊎ ((new_error e none [] none).status ≡ 503)
unfolding submit new_error
submit-new_error cfg w k request now s e h =
    admission-status cfg w k s e (admitted-raised (admission cfg w k s) cfg w k request now s e h)
