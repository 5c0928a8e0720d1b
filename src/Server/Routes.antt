-- ===== src/Server/Routes.antt =====
-- frontend/server/server.ts: the routes, in the order in which express tries them.
use metadata.Prelude.{
  Bool, ◌&&◌, List, [], ◌∷◌, ◌++◌, Option, none, some, if◌then◌else◌, drop, length,
}
use metadata.Prelude.Texts.{Text, text, starts_with}
use metadata.Server.{base_path, Server}

-- A request: `path` is what routes are matched against, `query` what follows it in the url.
pub record Request : Type 0 where
  pub method : Text
  pub path : Text
  pub query : Text

abbrev pub original_url : Request → Text
original_url req = req.path ++ req.query

pub data Response : Type 0 where
  sent : Text → Response
  proxied : (target url : Text) → Response
  from_static : Text → Response
  sent_file : Text → Response
  unanswered : Response
  not_found : Response

pub data Handler : Type 0 where
  cluster_name project_id : Handler
  proxy_envoy proxy_api proxy_rewritten_api : Handler
  static_at_base static_at_root index : Handler

abbrev pub v1alpha1_prefix : Text
v1alpha1_prefix = text "api/v1alpha1"

abbrev pub api_path : Text
api_path = text "/api/v1alpha1/"

-- How a route is declared: `app.get`, `app.all`, or `app.use` with a place to be mounted at.
pub data Layer : Type 0 where
  get all : (pattern : Text) → Handler → Layer
  mounted : (place : Text) → Handler → Layer

abbrev pub layers : List Layer
layers =
    get (text "/system/cluster-name") cluster_name
    ∷ get (base_path ++ text "/system/cluster-name") cluster_name
    ∷ get (text "/system/project-id") project_id
    ∷ get (base_path ++ text "/system/project-id") project_id
    ∷ all (text "/ml_metadata.*") proxy_envoy
    ∷ all (text "/" ++ (v1alpha1_prefix ++ text "/*")) proxy_api
    ∷ all (base_path ++ (text "/" ++ (v1alpha1_prefix ++ text "/*"))) proxy_rewritten_api
    ∷ mounted base_path static_at_base
    ∷ mounted [] static_at_root
    ∷ get (text "*") index
    ∷ []

-- `pathRewrite` of the proxy for the prefixed api.
unfoldable pub path_rewrite : Text → Text
path_rewrite pth = if starts_with pth base_path then drop (length base_path) pth else pth

abbrev pub metadata_headers : List (Text × Text)
metadata_headers = (text "Metadata-Flavor", text "Google") ∷ []

-- What express and the other packages do: `gets` are the methods that `app.get` handles, `matches`
-- tests a path against a route's, `below` takes a mounted handler's place off a path, `static` is what
-- express's static handler answers, if anything, `fetch` the text that `node-fetch` comes to, if its
-- promise is not rejected, and `resolve` is `path.resolve`.
pub record Platform : Type 0 where
  pub gets : Text → Bool
  pub matches : (pattern path : Text) → Bool
  pub below : (place path : Text) → Option Text
  pub static : (dir method path : Text) → Option Text
  pub fetch : (url : Text) → (headers : List (Text × Text)) → Option Text
  pub resolve : List Text → Text

module _ (sys : Platform) where
  -- The handlers of the metadata server's values are `async`: a rejected promise of theirs goes
  -- nowhere, and the request is left without an answer.
  unfoldable pub send_value : Text → Response
  send_value url = elim (sys.fetch url metadata_headers) [
    | none ↦ unanswered
    | some body ↦ sent body
  ]

  abbrev pub static_response : Option Text → Option Response
  static_response none = none
  static_response (some body) = some (from_static body)

  -- What a handler does with a request and the path that it is given; nothing where it leaves the
  -- request to the next one.
  unfoldable pub run : Server → Handler → Request → (path : Text) → Option Response
  unfolding send_value path_rewrite
  run server cluster_name req path =
      some (send_value (text "http://metadata/computeMetadata/v1/instance/attributes/cluster-name"))
  run server project_id req path =
      some (send_value (text "http://metadata/computeMetadata/v1/project/project-id"))
  run server proxy_envoy req path = some (proxied server.envoy_service_address (original_url req))
  run server proxy_api req path = some (proxied server.api_server_address (original_url req))
  run server proxy_rewritten_api req path =
      some (proxied server.api_server_address (path_rewrite (original_url req)))
  run server static_at_base req path =
      static_response (sys.static server.static_dir req.method path)
  run server static_at_root req path =
      static_response (sys.static server.static_dir req.method path)
  run server index req path =
      some (sent_file (sys.resolve (server.static_dir ∷ text "index.html" ∷ [])))

  -- The path that a layer's handler is given, if the layer takes the request.
  unfoldable pub taken : Layer → Request → Option Text
  taken (get pattern h) req =
      if sys.gets req.method && sys.matches pattern req.path then some req.path else none
  taken (all pattern h) req = if sys.matches pattern req.path then some req.path else none
  taken (mounted place h) req = sys.below place req.path

  abbrev pub handler_of : Layer → Handler
  handler_of (get pattern h) = h
  handler_of (all pattern h) = h
  handler_of (mounted place h) = h

  unfoldable pub tried : Server → Layer → Request → Option Response
  unfolding taken run
  tried server layer req = elim (taken layer req) [
    | none ↦ none
    | some path ↦ run server (handler_of layer) req path
  ]

  unfoldable pub dispatch : Server → List Layer → Request → Response
  unfolding tried
  dispatch server [] req = not_found
  dispatch server (layer ∷ rest) req =
      let later = dispatch server rest req in
      elim (tried server layer req) [ none ↦ later | some response ↦ response ]

  -- The line that the first middleware logs, and the answer.
  unfoldable pub handle : Server → Request → Text × Response
  unfolding dispatch
  handle server req = (req.method ++ (text " " ++ original_url req), dispatch server layers req)
