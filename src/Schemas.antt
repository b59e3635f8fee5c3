-- ===== src/Schemas.antt =====
-- The shared vocabulary of the task interfaces: app/core/errors.py and app/schemas/task.py.
use ktb4_2nd_ai.Prelude.{ℕ, String, Bool, true, false, List, ◌==◌}

-- `ErrorCode`
pub data ErrorCode : Type 0 where
  invalid_request unauthorized duplicate_task task_not_cancelable task_not_found : ErrorCode
  rate_limited model_not_ready vlm_unavailable download_failed worker_dead : ErrorCode
  timeout internal_error result_too_large canceled decode_failed worker_busy : ErrorCode

-- `HTTP_STATUS.get(code, 500)`, as `AppError` computes it
unfoldable pub http_status : ErrorCode → ℕ
http_status invalid_request = 422
http_status unauthorized = 401
http_status duplicate_task = 409
http_status task_not_cancelable = 409
http_status task_not_found = 404
http_status rate_limited = 429
http_status model_not_ready = 503
http_status worker_busy = 409
http_status _ = 500

-- `DEFAULT_MESSAGE`
unfoldable pub default_message : ErrorCode → String
default_message invalid_request = "요청 형식이 올바르지 않습니다."
default_message unauthorized = "인증 키가 없거나 올바르지 않습니다."
default_message duplicate_task = "같은 여행의 작업이 진행 중입니다."
default_message task_not_cancelable = "이미 종료된 작업은 취소할 수 없습니다."
default_message task_not_found = "작업 기록이 없습니다. 다시 요청해 주세요."
default_message rate_limited = "대기열이 가득 찼습니다. 잠시 후 다시 요청해 주세요."
default_message model_not_ready = "모델 적재가 끝나지 않았습니다."
default_message vlm_unavailable = "스토리 생성 서버를 사용할 수 없습니다."
default_message download_failed = "사본 다운로드에 실패했습니다."
default_message worker_dead = "워커 응답이 끊겼습니다."
default_message timeout = "처리 시간 상한을 초과했습니다."
default_message internal_error = "내부 오류가 발생했습니다."
default_message result_too_large = "작업 결과가 허용된 크기를 초과했습니다."
default_message canceled = "작업이 취소되었습니다."
default_message decode_failed = "이미지 디코딩에 실패했습니다."
default_message worker_busy = "워커가 다른 작업을 실행 중입니다."

-- `TaskStatus`
pub data TaskStatus : Type 0 where
  queued processing completed failed canceled : TaskStatus

-- `status in TERMINAL_STATUSES`
abbrev pub is_terminal : TaskStatus → Bool
is_terminal queued = false
is_terminal processing = false
is_terminal completed = true
is_terminal failed = true
is_terminal canceled = true

abbrev pub status_code : TaskStatus → ℕ
status_code queued = 0
status_code processing = 1
status_code completed = 2
status_code failed = 3
status_code canceled = 4

-- `is` between two members of `TaskStatus`
unfoldable pub is_status : TaskStatus → TaskStatus → Bool
is_status a b = status_code a == status_code b

-- `ProcessStep`
pub data ProcessStep : Type 0 where
  downloading embedding clock locating clustering filtering finalizing : ProcessStep

-- `Progress`
pub record Progress : Type 0 where
  pub done : ℕ
  pub total : ℕ

-- the values that `detail` dictionaries hold
pub data DetailValue : Type 0 where
  text : String → DetailValue
  number : ℕ → DetailValue
  texts : List String → DetailValue
  numbers : List ℕ → DetailValue

-- `ErrorBody`
pub record ErrorBody : Type 0 where
  pub code : ErrorCode
  pub message : String
  pub detail : List (String × DetailValue)
