-- ===== src/Http/Errors.antt =====
-- src/shared/errors/appError.ts and the error handler of src/middleware/error.middleware.ts.
use zolt.Prelude.{
  ℕ, zero, suc, ◌/◌, Bool, true, false, Option, none, some, ltb, ◌==◌, if◌then◌else◌,
}
use zolt.Monad.{Failure, app_error, Message, M, pure}
use zolt.Http.Reply.{
  ErrorText, ErrorStatus, fail, error, said, something_went_wrong, error_body, Reply, reply,
}

-- The fields of a thrown value that the error handler reads; `message` is that of an AppError.
pub record HttpError : Type 0 where
  pub status_code : Option ℕ
  pub status : Option ErrorStatus
  pub is_operational : Bool
  pub message : Option Message

-- The first digit of a decimal number; `fuel` bounds its digits.
unfoldable pub first_digit : ℕ → ℕ → ℕ
first_digit zero n = n
first_digit (suc fuel) n = let rest = first_digit fuel (n / 10) in if ltb n 10 then n else rest

-- `${statusCode}`.startsWith('4') ? 'fail' : 'error'
unfoldable pub status_of : ℕ → ErrorStatus
unfolding first_digit
status_of c = if first_digit c c == 4 then fail else error

-- new AppError(message, statusCode)
unfoldable pub new_app_error : Message → ℕ → HttpError
unfolding status_of
new_app_error m c = record {
  status_code = some c;
  status = some (status_of c);
  is_operational = true;
  message = some m;
}

-- What is thrown by a library or by the language has no flag isOperational.
abbrev pub foreign_error : HttpError
foreign_error = record { status_code = none; status = none; is_operational = false; message = none }

unfoldable pub thrown : Failure → HttpError
unfolding new_app_error
thrown (app_error m c) = new_app_error m c
thrown _ = foreign_error

-- err.statusCode || 500
abbrev pub code_or_500 : Option ℕ → ℕ
code_or_500 none = 500
code_or_500 (some c) = if c == 0 then 500 else c

abbrev pub status_or_error : Option ErrorStatus → ErrorStatus
status_or_error none = error
status_or_error (some s) = s

abbrev text_of : Option Message → ErrorText
text_of none = something_went_wrong
text_of (some m) = said m

unfoldable pub error_reply : HttpError → Reply
error_reply e =
    if e.is_operational
    then reply (code_or_500 e.status_code)
        (error_body (status_or_error e.status) (text_of e.message))
    else reply 500 (error_body error something_went_wrong)

unfoldable pub global_error_handler : HttpError → M Reply
unfolding error_reply
global_error_handler e = pure (error_reply e)
