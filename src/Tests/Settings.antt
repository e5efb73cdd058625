-- ===== src/Tests/Settings.antt =====
-- Runs of the configuration and of the retention worker's lease.
use kalki_chat.Base.{◌*◌, ◌+◌, ◌≡◌, ◌≢◌, refl, true, none, List, [], ◌∷◌, arith}
use kalki_chat.Env.{Env, day, second}
use kalki_chat.Config.{Source, Settings, settings, worker_ttl, day_ns}
use kalki_chat.Config.Laws.{worker_ttl_wrong}
use kalki_chat.Retention.Lease.{Shared, sweeps, is_spaced, sweeps_spaced}
use kalki_chat.Tests.{env, later}
use kalki_chat.Tests.Sweeps.{config, stores}

-- An environment without variables, and parsers that know nothing.
abbrev source : Source
source = record {
  getenv = λ k. [];
  read_file = λ f. none;
  parse_duration = λ s. none;
  atoi = λ s. none;
  parse_uint = λ s b. none;
  parse_bool = λ s. none;
  trim_space = λ s. s;
}

abbrev month : Settings
month = settings source day (30 * day) (60 * second) (30 * day_ns) [] []

worker_ttl_wrong_example : worker_ttl month ≢ 30 * day_ns
worker_ttl_wrong_example = worker_ttl_wrong month 30 (omega arith) (omega arith) refl

abbrev ticks : List Env
ticks = env ∷ env ∷ later ∷ []

abbrev shared : Shared
shared = record { stores = stores; lease = none }

sweeps_spaced_example : is_spaced (config.sweep + 10 * second) (sweeps config ticks shared) ≡ true
sweeps_spaced_example = sweeps_spaced config ticks shared
