-- ===== src/Base/Status.antt =====
-- base/status.h: a code with its message, and a value or the status of a failure.
use mathlib.Core.Bool.{Bool, true, false}
use mathlib.Core.List.{[], ◌++◌}
use pulse_log.Base.Tests.{if◌then◌else◌}
use pulse_log.Base.Keys.{Bytes}
use pulse_log.Base.Text.{text}
use pulse_log.Base.Types.{ErrorCode}

pub record Status : Type 0 where
  pub code : ErrorCode
  pub message : Bytes

abbrev pub ok_status : Status
ok_status = record { code = ErrorCode.ok; message = [] }

abbrev pub error_status : ErrorCode → Bytes → Status
error_status code message = record { code = code; message = message }

-- `Status::ok`
abbrev pub error_is_ok : ErrorCode → Bool
error_is_ok ErrorCode.ok = true
error_is_ok _ = false

-- `Status::WithContext`
abbrev pub with_context : Bytes → Status → Status
with_context context s =
    if error_is_ok s.code
    then s
    else record { code = s.code; message = context ++ text ": " ++ s.message }

-- `Result<T>`
pub data Result {ℓ} (A : Type ℓ) : Type ℓ where
  failed_with : Status → Result A
  value_of_result : A → Result A
