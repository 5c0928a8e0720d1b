-- ===== src/Tests/Server.antt =====
-- The Node server on small inputs.
use metadata.Prelude.{
  ◌≡◌, refl, Bool, ◌||◌, List, [], ◌∷◌, ◌++◌, Option, none, some, drop, if◌then◌else◌, length,
}
use metadata.Prelude.Texts.{Text, text, text_eq, starts_with}
use metadata.Server.{Server, listens, given, start_up, base_path, Environment}
use metadata.Server.Routes.{Platform, Request, Response, proxied, api_path, handle}
use metadata.Server.Matching.{glob, glob-IsExpress}
use metadata.Server.Forwarding.{request_to, response, prefixed_api}
use metadata.Server.Targets.{MaySend, handle-MaySend}

abbrev environment : Environment
environment = record {
  metadata_service_service_host = some (text "api");
  metadata_service_service_port = none;
  metadata_envoy_service_service_host = none;
  metadata_envoy_service_service_port = some [];
}

-- `path.resolve` of a list of paths.
abbrev resolve : List Text → Text
resolve [] = text "/"
resolve (p ∷ ps) = p ++ resolve ps

abbrev server : Server
server = record {
  static_dir = text "/client/";
  port = given (text "3000");
  api_server_address = text "http://api:8080";
  envoy_service_address = text "http://localhost:";
}

start_up-environment :
    start_up resolve environment
      (text "node" ∷ text "server.js" ∷ text "/client" ∷ text "3000" ∷ [])
    ≡ listens server
unfolding start_up
start_up-environment = refl

abbrev gets : Text → Bool
gets m = text_eq m (text "GET") || text_eq m (text "HEAD")

abbrev below : Text → Text → Option Text
below place path = if starts_with path place then some (drop (length place) path) else none

abbrev static : (dir method path : Text) → Option Text
static dir method path = if text_eq path (text "/favicon.ico") then some (text "icon") else none

abbrev fetch : Text → List (Text × Text) → Option Text
fetch url headers = none

abbrev platform : Platform
platform = record {
  gets = gets;
  matches = glob;
  below = below;
  static = static;
  fetch = fetch;
  resolve = resolve;
}

favicon-response :
    response platform server (request_to (text "GET") (text "/metadata/favicon.ico") [])
    ≡ Response.from_static (text "icon")
unfolding handle glob starts_with
favicon-response = refl

prefixed_api_example :
    (response platform server
        (request_to (text "POST") (base_path ++ (api_path ++ text "a")) (text "?b"))
      ≡ response platform server (request_to (text "POST") (api_path ++ text "a") (text "?b")))
    × (response platform server (request_to (text "POST") (api_path ++ text "a") (text "?b"))
        ≡ proxied (text "http://api:8080") (text "/api/v1alpha1/a?b"))
prefixed_api_example =
    prefixed_api platform glob-IsExpress server (text "POST") (text "a") (text "?b")

abbrev store_request : Request
store_request = request_to (text "POST") (text "/ml_metadata.Store/Get") []

store_request-proxied :
    response platform server store_request
    ≡ proxied (text "http://localhost:") (text "/ml_metadata.Store/Get")
unfolding handle glob
store_request-proxied = refl

handle-MaySend_example :
    MaySend platform server store_request (text "http://localhost:") (text "/ml_metadata.Store/Get")
handle-MaySend_example =
    handle-MaySend platform server store_request (text "http://localhost:")
      (text "/ml_metadata.Store/Get") store_request-proxied

abbrev page_request : Request
page_request = request_to (text "GET") (text "/artifacts") []
