-- ===== src/Server.antt =====
-- frontend/server/server.ts: what the Node server is set up with, from its environment and its
-- arguments. `resolve` is `path.resolve`.
pub mod Routes
pub mod Matching
pub mod Forwarding
pub mod Targets
pub mod Fallback
use metadata.Prelude.{ℕ, List, [], ◌∷◌, ◌++◌, Option, none, some, if◌then◌else◌, or_else}
use metadata.Prelude.Texts.{Text, text}
use metadata.Value.{is_empty}

abbrev pub base_path : Text
base_path = text "/metadata"

-- The variables of `process.env` that the server reads.
pub record Environment : Type 0 where
  pub metadata_service_service_host : Option Text
  pub metadata_service_service_port : Option Text
  pub metadata_envoy_service_service_host : Option Text
  pub metadata_envoy_service_service_port : Option Text

-- A port as it was given, or the number that stands for none.
pub data Port : Type 0 where
  given : Text → Port
  number : ℕ → Port

pub record Server : Type 0 where
  pub static_dir : Text
  pub port : Port
  pub api_server_address : Text
  pub envoy_service_address : Text

pub data Startup : Type 0 where
  exits : ℕ → Startup
  listens : Server → Startup

-- `process.argv[3] || 3000`.
abbrev pub port_of : List Text → Port
port_of [] = number 3000
port_of (p ∷ _) = if is_empty p then number 3000 else given p

abbrev pub address : Text → Text → Text
address host port = text "http://" ++ (host ++ (text ":" ++ port))

unfoldable pub api_server_address_of : Environment → Text
api_server_address_of env =
    address (or_else env.metadata_service_service_host (text "localhost"))
      (or_else env.metadata_service_service_port (text "8080"))

unfoldable pub envoy_service_address_of : Environment → Text
envoy_service_address_of env =
    address (or_else env.metadata_envoy_service_service_host (text "localhost"))
      (or_else env.metadata_envoy_service_service_port (text "9090"))

-- With fewer than three arguments the server prints how it is used, and exits.
unfoldable pub start_up : (resolve : List Text → Text) → Environment → (argv : List Text) → Startup
unfolding api_server_address_of envoy_service_address_of
start_up resolve env (node ∷ script ∷ dir ∷ rest) = listens (record {
  static_dir = resolve (dir ∷ []);
  port = port_of rest;
  api_server_address = api_server_address_of env;
  envoy_service_address = envoy_service_address_of env;
})
start_up resolve env _ = exits 1
