-- ===== src/Http.antt =====
-- The HTTP interface: the replies, the errors, the middleware and the routes of src/modules/jobs, with the
-- health probe. Express and zod are not under src/: what the code uses of them is a parameter.
pub mod Reply
pub mod Errors
pub mod Middleware
pub mod JobSchema
pub mod Controllers
pub mod Routes
pub mod Health
pub mod InFlight
pub mod Codes
pub mod Answers
pub mod Replies
pub mod RoundTrip
