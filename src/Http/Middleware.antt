-- ===== src/Http/Middleware.antt =====
-- src/utils/asyncHandler.ts, src/middleware/validate.middleware.ts, not-found.middleware.ts and
-- requestLogger.middlewares.ts. What Express does with next(error) is a parameter, and so is what it does
-- with next().
use zolt.Prelude.{ℕ, List, [], ◌∷◌, ◌++◌, Text, map, leb, if◌then◌else◌, codes}
use zolt.Monad.{M, pure, try_catch, invalid_request}
use zolt.Http.Errors.{HttpError, new_app_error, thrown, foreign_error}
use zolt.Http.Reply.{Reply, reply, fail, error_body, route_not_found}

-- Promise.resolve(fn(req, res, next)).catch(next)
unfoldable pub async_handler : M Reply → (HttpError → M Reply) → M Reply
async_handler handler next_error = try_catch handler (λ e. next_error (thrown e))

-- An issue of a ZodError, with its path left out: the path is only logged.
pub record Issue : Type 0 where
  pub message : Text

-- How schema.parseAsync settles: it resolves, or rejects with a ZodError or with an error of another kind,
-- which is no AppError.
pub data Parse (A : Type 0) : Type 0 where
  parsed : A → Parse A
  zod_error : List Issue → Parse A
  rejected : Parse A

-- array.join(', ')
unfoldable pub joined : List Text → Text
joined [] = []
joined (t ∷ []) = t
joined (t ∷ u ∷ us) = let rest = joined (u ∷ us) in t ++ (codes ", " ++ rest)

unfoldable pub validate_request :
    {A : Type 0} → Parse A → (A → M Reply) → (HttpError → M Reply) → M Reply
unfolding joined
validate_request (parsed a) next next_error = next a
validate_request (zod_error issues) next next_error =
    next_error (new_app_error (invalid_request (joined (map (λ i. i.message) issues))) 400)
validate_request rejected next next_error = next_error foreign_error

unfoldable pub not_found_handler : Text → Text → M Reply
not_found_handler method url = pure (reply 404 (error_body fail (route_not_found method url)))

pub data LogLevel : Type 0 where
  info warn error : LogLevel

-- The level of the log entry of a completed request.
unfoldable pub completion_level : ℕ → LogLevel
completion_level code = if leb 500 code then LogLevel.error else if leb 400 code then warn else info
