-- ===== src/Infra/Config.antt =====
-- internal/config/config.go. viper and the JSON encoder are parameters.
use Prim.Native.String.{String}
use hedonify.Prelude.{ℕ, ℤ, Option, none, some}
use hedonify.Infra.Run.{Command, pure, fatal}

pub record Application : Type 0 where
  pub env : String
  pub host : String
  pub secret_key : String
  pub port : ℤ

pub record Database : Type 0 where
  pub name : String
  pub host : String
  pub migration_path : String
  pub password : String
  pub time_zone : String
  pub username : String
  pub max_connections : ℤ
  pub min_connections : ℤ
  pub port : ℕ  -- uint16

pub record Cache : Type 0 where
  pub host : String
  pub password : String
  pub database : ℤ
  pub port : ℕ  -- uint16

pub record Otel : Type 0 where
  pub host : String
  pub port : ℤ

pub record Config : Type 0 where
  pub database : Database
  pub cache : Cache
  pub application : Application
  pub otel : Otel

-- viper: the file of a name, if it can be read, and the settings that it makes, if they fit.
pub record ConfigHost : Type 0 where
  pub read_in_config : String → Option String
  pub unmarshal : String → Option Config

-- Get, at its first call in a process; the messages are left out.
unfoldable pub get : ConfigHost → String → Command Config
get host filename = elim (host.read_in_config filename) [
  | none ↦ fatal
  | some settings ↦ elim (host.unmarshal settings) [ none ↦ fatal | some config ↦ pure config ]
]
