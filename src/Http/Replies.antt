-- ===== src/Http/Replies.antt =====
-- What the error handler of src/middleware/error.middleware.ts says and hides, and what the check of a request
-- by src/middleware/validate.middleware.ts keeps from the handlers.
use zolt.Prelude.{
  codes, Text, ◌&&◌, leb, ℕ, ◌≡◌, ◌≤◌, ◌<◌, refl, Bool, true, ltb, if◌then◌else◌, arith, zero, suc,
  ◌/◌,
}
use zolt.Monad
use zolt.Monad.{
  World, ok, err, M, insert_returned_no_row, queue_error, type_error, database_error, Failure,
  app_error, Message,
}
use zolt.Http.Errors.{
  global_error_handler, error_reply, thrown, status_of, first_digit, new_app_error,
}
use zolt.Http.Reply.{Reply, ErrorStatus, fail, error, reply, error_body, said, something_went_wrong}
use zolt.Http.Middleware.{async_handler}
use zolt.Schema.{once, immediate, ScheduleType}

first_digit-two : (fuel n : ℕ) → 10 ≤ n → n < 100 → first_digit (suc (suc fuel)) n ≡ n / 10
unfolding first_digit
first_digit-two fuel n low high = ground arith

first_digit-three :
    (fuel n : ℕ) → 100 ≤ n → n < 1000 → first_digit (suc (suc (suc fuel))) n ≡ n / 10 / 10
unfolding first_digit
first_digit-three fuel n low high = ground arith

hundreds : (c : ℕ) → 100 ≤ c → c < 1000 → first_digit c c ≡ c / 10 / 10
hundreds (suc (suc (suc f))) low high = first_digit-three f (suc (suc (suc f))) low high
hundreds zero low high = ground arith
hundreds (suc zero) low high = ground arith
hundreds (suc (suc zero)) low high = ground arith

abbrev pub status_for : ℕ → ErrorStatus
status_for c = if ltb c 500 then fail else error

status_of-status_for : (c : ℕ) → 400 ≤ c → c < 600 → status_of c ≡ status_for c
unfolding status_of
status_of-status_for c low high = ground (arith, hundreds c)

-- An AppError has a code between 400 and 599.
abbrev pub well_coded : Failure → Bool
well_coded (app_error m c) = leb 400 c && ltb c 600
well_coded _ = true

-- What a client is told of a failure.
abbrev pub told : Failure → Reply
told (app_error m c) = reply c (error_body (status_for c) (said m))
told _ = reply 500 (error_body error something_went_wrong)

app_error-told :
    (m : Message) (c : ℕ)
    → well_coded (app_error m c) ≡ true
    → error_reply (new_app_error m c) ≡ told (app_error m c)
unfolding error_reply new_app_error
app_error-told m c h = ground (arith, status_of-status_for c)

thrown-told : (e : Failure) → well_coded e ≡ true → error_reply (thrown e) ≡ told e
unfolding error_reply thrown
thrown-told (app_error m c) h = app_error-told m c h
thrown-told database_error h = refl
thrown-told type_error h = refl
thrown-told queue_error h = refl
thrown-told insert_returned_no_row h = refl

-- If a handler throws, and the code of what it throws, where it is an AppError, is one of 400 to 599, the
-- reply is an AppError's own code and message, with the status `fail` below 500 and `error` above, and of
-- any other failure only that something went wrong; the world is as the handler left it.
pub async_handler-tells :
    (handler : M Reply) (e : Failure) (w w' : World)
    → handler w ≡ (err e, w')
    → well_coded e ≡ true
    → async_handler handler global_error_handler w ≡ (ok (told e), w')
unfolding async_handler global_error_handler Monad.running
async_handler-tells handler e w w' failed h = rw (failed, thrown-told e h) refl

-- The message of the broken rule.
abbrev pub wrong_run_at : ScheduleType → Text
wrong_run_at once = codes "run_at is required for ONCE jobs"
wrong_run_at immediate = codes "run_at must not be provided for IMMEDIATE jobs"
