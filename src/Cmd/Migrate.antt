-- ===== src/Cmd/Migrate.antt =====
-- backend/cmd/migrate/main.go, and Migrate and MigrateVersion of backend/internal/db/db.go.
use kalki_chat.Base.{
  ℕ, ◌≡◌, Bool, true, false, Option, none, some, List, [], ◌∷◌, Text, lit, eq_text, if◌then◌else◌,
  arith, Option-cases,
}

-- golang-migrate: the outcome of `Up`.
pub data UpAnswer : Type 0 where
  applied no_change broken : UpAnswer

-- golang-migrate, on a directory and a database: whether `New` succeeds, `Up`, and the version with
-- whether it is dirty; `none` is an error.
pub record Migrator : Type 0 where
  pub opens : Text → Bool
  pub up : Text → UpAnswer
  pub version : Text → Option (ℕ × Bool)

abbrev pub is_success : UpAnswer → Bool
is_success applied = true
is_success no_change = true
is_success broken = false

-- `Migrate`: whether it returns nil.
abbrev pub migrate : Migrator → Text → Bool
migrate m dir = if m.opens dir then is_success (m.up dir) else false

-- What ends a run of the program; `usage` is status 2, and `fatal` is `log.Fatal`.
pub data Exit : Type 0 where
  usage fatal finished : Exit
  printed : ℕ → Exit

abbrev pub clean_version : ℕ × Bool → Option ℕ
clean_version (n, dirty) = if dirty then none else some n

-- `MigrateVersion`: `none` is an error, also that of a dirty version.
abbrev pub migrate_version : Migrator → Text → Option ℕ
migrate_version m dir =
    if m.opens dir then elim (m.version dir) [ none ↦ none | some p ↦ clean_version p ] else none

abbrev pub migrations : Text
migrations = lit "migrations"

abbrev pub run_command : Migrator → Text → Exit
run_command m c =
    if eq_text c (lit "up")
    then if migrate m migrations then finished else fatal
    else if eq_text c (lit "version")
    then elim (migrate_version m migrations) [ none ↦ fatal | some n ↦ printed n ]
    else usage

-- `main`, for the arguments behind the program's name and whether the configuration loads.
unfoldable pub migrate_main : Migrator → Bool → List Text → Exit
migrate_main m loads [] = usage
migrate_main m loads (c ∷ rest) = if loads then run_command m c else fatal

-- Only a clean version is printed.
pub printed_clean :
    (m : Migrator) (loads : Bool) (args : List Text) (n : ℕ)
    → migrate_main m loads args ≡ printed n
    → m.version migrations ≡ some (n, false)
unfolding migrate_main
printed_clean m loads [] n h = ground (arith, h)
printed_clean m loads (c ∷ rest) n h = ground (arith, h, Option-cases (m.version migrations))
