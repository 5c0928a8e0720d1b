-- ===== src/Server/Forwarding.antt =====
-- frontend/server/server.ts: which requests reach the servers behind this one, and with which url.
use mathlib.Core.Path.{subst}
use metadata.Prelude.{
  true, false, List, ◌∷◌, ◌++◌, ◌≡◌, inl, inr, refl, sym, ◌∙◌, append_assoc, drop, Bool-cases, some,
}
use metadata.Prelude.Texts.{Text, text, starts_with}
use metadata.Server.{base_path, Server}
use metadata.Server.Routes.{
  Platform, Layer, get, all, Handler, cluster_name, project_id, proxy_envoy, proxy_api,
  proxy_rewritten_api, Request, Response, proxied, api_path, layers, path_rewrite, run, taken,
  tried, dispatch, handle,
}
use metadata.Server.Matching.{differ, same_but_case, IsExpress}

-- A request of some method for a path and what follows it.
abbrev pub request_to : Text → Text → Text → Request
request_to method path query = record { method = method; path = path; query = query }

module _ (sys : Platform) where
  abbrev pub response : Server → Request → Response
  response server req = (handle sys server req).1

  abbrev pub sends : Server → List Layer → Request → Response
  sends server ls req = dispatch sys server ls req

  pub skip_get :
      (server : Server) (pattern : Text) (h : Handler) (ls : List Layer) (req : Request)
      → sys.matches pattern req.path ≡ false
      → sends server (get pattern h ∷ ls) req ≡ sends server ls req
  unfolding dispatch tried taken
  skip_get server pattern h ls req e = elim (Bool-cases (sys.gets req.method)) [
    | inl g ↦ rw (g, e, dispatch, tried, taken) refl
    | inr g ↦ rw (g, dispatch, tried, taken) refl
  ]

  pub skip_all :
      (server : Server) (pattern : Text) (h : Handler) (ls : List Layer) (req : Request)
      → sys.matches pattern req.path ≡ false
      → sends server (all pattern h ∷ ls) req ≡ sends server ls req
  unfolding dispatch tried taken
  skip_all server pattern h ls req e = rw (e, dispatch, tried, taken) refl

  take_all :
      (server : Server) (pattern : Text) (h : Handler) (ls : List Layer) (req : Request)
      (r : Response)
      → sys.matches pattern req.path ≡ true
      → run sys server h req req.path ≡ some r
      → sends server (all pattern h ∷ ls) req ≡ r
  unfolding dispatch tried taken
  take_all server pattern h ls req r e answer = rw (e, answer, dispatch, tried, taken) refl

  pub take_get :
      (server : Server) (pattern : Text) (h : Handler) (ls : List Layer) (req : Request)
      (r : Response)
      → sys.gets req.method ≡ true
      → sys.matches pattern req.path ≡ true
      → run sys server h req req.path ≡ some r
      → sends server (get pattern h ∷ ls) req ≡ r
  unfolding dispatch tried taken
  take_get server pattern h ls req r g e answer = rw (g, e, answer, dispatch, tried, taken) refl

  -- The routes before the api's.
  abbrev pub IsLate : Text → Type 0
  IsLate path =
      (differ (text "/system/cluster-name") path ≡ true)
      × (differ (text "/metadata/system/cluster-name") path ≡ true)
      × (differ (text "/system/project-id") path ≡ true)
      × (differ (text "/metadata/system/project-id") path ≡ true)
      × (differ (text "/ml_metadata.*") path ≡ true)

  pub late :
      IsExpress sys.matches
      → (server : Server) (req : Request) → IsLate req.path
      → response server req ≡ sends server (drop 5 layers) req
  unfolding handle
  late e server req (a, b, c, d, m) =
      skip_get server (text "/system/cluster-name") cluster_name (drop 1 layers) req (e.apart _ _ a)
      ∙ skip_get server (text "/metadata/system/cluster-name") cluster_name (drop 2 layers) req
          (e.apart _ _ b)
      ∙ skip_get server (text "/system/project-id") project_id (drop 3 layers) req (e.apart _ _ c)
      ∙ skip_get server (text "/metadata/system/project-id") project_id (drop 4 layers) req
          (e.apart _ _ d)
      ∙ skip_all server (text "/ml_metadata.*") proxy_envoy (drop 5 layers) req (e.apart _ _ m)

  plain_api :
      IsExpress sys.matches
      → (server : Server) (method rest query : Text)
      → response server (request_to method (api_path ++ rest) query)
        ≡ proxied server.api_server_address ((api_path ++ rest) ++ query)
  unfolding differ same_but_case run
  plain_api e server method rest query =
      let req = request_to method (api_path ++ rest) query in
      late e server req (refl, refl, refl, refl, refl)
      ∙ take_all server (api_path ++ text "*") proxy_api (drop 6 layers) req _
          (e.star api_path api_path rest refl) refl

  prefixed :
      IsExpress sys.matches
      → (server : Server) (method rest query base : Text) → IsLate (base ++ (api_path ++ rest))
      → differ (api_path ++ text "*") (base ++ (api_path ++ rest)) ≡ true
      → same_but_case (base_path ++ api_path) (base ++ api_path) ≡ true
      → response server (request_to method (base ++ (api_path ++ rest)) query)
        ≡ proxied server.api_server_address (path_rewrite ((base ++ (api_path ++ rest)) ++ query))
  unfolding run
  prefixed e server method rest query base l other same =
      let req = request_to method (base ++ (api_path ++ rest)) query in
      late e server req l
      ∙ skip_all server (api_path ++ text "*") proxy_api (drop 6 layers) req (e.apart _ _ other)
      ∙ take_all server (base_path ++ (api_path ++ text "*")) proxy_rewritten_api (drop 7 layers)
          req _
          (subst (λ p. sys.matches (base_path ++ (api_path ++ text "*")) p ≡ true)
            (append_assoc base api_path rest)
            (e.star (base_path ++ api_path) (base ++ api_path) rest same))
          refl

  -- Behind the base path the api answers as it does without it: whatever the method, the rest of the
  -- path and the query are, both requests are forwarded to the api server, with the same url.
  pub prefixed_api :
      IsExpress sys.matches
      → (server : Server) (method rest query : Text)
      → (response server (request_to method (base_path ++ (api_path ++ rest)) query)
          ≡ response server (request_to method (api_path ++ rest) query))
        × (response server (request_to method (api_path ++ rest) query)
            ≡ proxied server.api_server_address ((api_path ++ rest) ++ query))
  unfolding differ same_but_case path_rewrite starts_with
  prefixed_api e server method rest query = (
    prefixed e server method rest query base_path (refl, refl, refl, refl, refl) refl refl
        ∙ sym (plain_api e server method rest query),
    plain_api e server method rest query,
  )

  -- The route for the prefixed api takes the prefix in any case, but only the prefix as it is written
  -- is taken off the url: one in capitals is forwarded to the api server with the rest.
  pub capital_prefix-kept :
      IsExpress sys.matches
      → (server : Server) (method rest query : Text)
      → response server (request_to method (text "/METADATA" ++ (api_path ++ rest)) query)
        ≡ proxied server.api_server_address ((text "/METADATA" ++ (api_path ++ rest)) ++ query)
  unfolding differ same_but_case path_rewrite starts_with
  capital_prefix-kept e server method rest query =
      prefixed e server method rest query (text "/METADATA") (refl, refl, refl, refl, refl) refl
        refl
