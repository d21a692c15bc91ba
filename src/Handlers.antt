-- ===== src/Handlers.antt =====
-- src/handlers: the registry, and what a handler call amounts to for its caller. What a handler does
-- with its payload, and what other processes do to the database meanwhile, is a parameter.
pub mod Simulation
use zolt.Prelude.{ℕ, Bool, true, false, Option, Text, codes, ◌++◌}
use zolt.Schema.{
  Db, Job, JobType, send_email, create_campaign, generate_report, web_hook, unregistered,
}
use zolt.Monad.{World, M, Result, ok}

-- handlerRegistry[type] is a handler
unfoldable pub is_registered : JobType → Bool
is_registered send_email = true
is_registered create_campaign = true
is_registered generate_report = true
is_registered web_hook = true
is_registered (unregistered _) = false

abbrev pub type_name : JobType → Text
type_name send_email = codes "SEND_EMAIL"
type_name create_campaign = codes "CREATE_CAMPAIGN"
type_name generate_report = codes "GENERATE_REPORT"
type_name web_hook = codes "WEB_HOOK"
type_name (unregistered name) = name

-- A handler resolves, or rejects: with an Error and its message, or with another value.
pub data Outcome : Type 0 where
  resolved : Outcome
  rejected : Option Text → Outcome

-- `others` is what the other sessions have committed when the handler settles.
pub record Handling : Type 0 where
  pub outcome : Outcome
  pub duration : ℕ
  pub others : Db → Db
