-- ===== src/Server/Targets.antt =====
-- frontend/server/server.ts: what the server sends on to other servers, and what it leaves open.
use mathlib.Core.Path.{subst}
use metadata.Prelude.{
  true, ◌&&◌, List, [], ◌∷◌, ◌++◌, ◌≡◌, ◌⊎◌, inl, inr, refl, Option, none, some, All, Option-cases,
  Bool-cases,
}
use metadata.Prelude.Texts.{Text, text}
use metadata.Server.{base_path, Server}
use metadata.Server.Routes.{
  Platform, Request, original_url, Response, proxied, api_path, layers, path_rewrite, send_value,
  metadata_headers, run, taken, tried, dispatch, handle, static_response, Layer, get, all, mounted,
  Handler, cluster_name, project_id, proxy_envoy, proxy_api, proxy_rewritten_api, static_at_base,
  static_at_root, index,
}

abbrev Each : (Response → Type 0) → Option Response → Type 0
Each P none = Unit
Each P (some r) = P r

module _ (sys : Platform) where
  -- What may be sent on: the metadata store's requests to envoy, the api's to the api server, as they
  -- came or, under the base path, rewritten.
  abbrev pub MaySend : Server → Request → (target url : Text) → Type 0
  MaySend server req target url =
      (sys.matches (text "/ml_metadata.*") req.path ≡ true)
        × (target ≡ server.envoy_service_address)
        × (url ≡ original_url req)
      ⊎ ((sys.matches (api_path ++ text "*") req.path ≡ true)
            × (target ≡ server.api_server_address)
            × (url ≡ original_url req)
          ⊎ (sys.matches (base_path ++ (api_path ++ text "*")) req.path ≡ true)
            × (target ≡ server.api_server_address)
            × (url ≡ path_rewrite (original_url req)))

  abbrev IsAllowed : Server → Request → Response → Type 0
  IsAllowed server req (proxied target url) = MaySend server req target url
  IsAllowed server req _ = Unit

  abbrev Allows : Server → Request → Layer → Type 0
  Allows server req layer = Each (IsAllowed server req) (tried sys server layer req)

  first-IsAllowed :
      (server : Server) (req : Request) (later : Response) (o : Option Response)
      → Each (IsAllowed server req) o
      → IsAllowed server req later
      → IsAllowed server req (elim o [ none ↦ later | some response ↦ response ])
  first-IsAllowed server req later none g h = h
  first-IsAllowed server req later (some r) g h = g

  dispatch-IsAllowed :
      (server : Server) (req : Request) (ls : List Layer)
      → All (Allows server req) ls
      → IsAllowed server req (dispatch sys server ls req)
  unfolding dispatch
  dispatch-IsAllowed server req [] h = tt
  dispatch-IsAllowed server req (layer ∷ ls) (h, hs) =
      first-IsAllowed server req _ (tried sys server layer req) h
        (dispatch-IsAllowed server req ls hs)

  abbrev RunAllows : Server → Request → Handler → Text → Type 0
  RunAllows server req h path = Each (IsAllowed server req) (run sys server h req path)

  get-Allows :
      (server : Server) (req : Request) (pattern : Text) (h : Handler)
      → RunAllows server req h req.path
      → Allows server req (get pattern h)
  unfolding tried taken
  get-Allows server req pattern h g =
      elim (Bool-cases (sys.gets req.method && sys.matches pattern req.path)) [
        | inl e ↦ rw (e, taken, tried) g
        | inr e ↦ rw (e, taken, tried) tt
      ]

  all-Allows :
      (server : Server) (req : Request) (pattern : Text) (h : Handler)
      → (sys.matches pattern req.path ≡ true → RunAllows server req h req.path)
      → Allows server req (all pattern h)
  unfolding tried taken
  all-Allows server req pattern h g = elim (Bool-cases (sys.matches pattern req.path)) [
    | inl e ↦ rw (e, taken, tried) (g e)
    | inr e ↦ rw (e, taken, tried) tt
  ]

  static-Allows :
      (server : Server) (req : Request) (o : Option Text)
      → Each (IsAllowed server req) (static_response sys o)
  static-Allows server req none = tt
  static-Allows server req (some body) = tt

  mounted_at_base-Allows :
      (server : Server) (req : Request) (place : Text)
      → Allows server req (mounted place static_at_base)
  unfolding tried taken run
  mounted_at_base-Allows server req place = elim (Option-cases (sys.below place req.path)) [
    | inl e ↦ rw (e, taken, tried) tt
    | inr (path, e) ↦
        rw (e, taken, tried)
          (static-Allows server req (sys.static server.static_dir req.method path))
  ]

  mounted_at_root-Allows :
      (server : Server) (req : Request) (place : Text)
      → Allows server req (mounted place static_at_root)
  unfolding tried taken run
  mounted_at_root-Allows server req place = elim (Option-cases (sys.below place req.path)) [
    | inl e ↦ rw (e, taken, tried) tt
    | inr (path, e) ↦
        rw (e, taken, tried)
          (static-Allows server req (sys.static server.static_dir req.method path))
  ]

  value-Allows :
      (server : Server) (req : Request) (url : Text) → IsAllowed server req (send_value sys url)
  unfolding send_value
  value-Allows server req url = elim (Option-cases (sys.fetch url metadata_headers)) [
    | inl e ↦ rw (e, send_value) tt
    | inr (body, e) ↦ rw (e, send_value) tt
  ]

  -- Whatever is asked, the server sends on only the requests for the metadata store, to envoy, and
  -- those for the api, to the api server: the url is the request's own, or under the base path the
  -- rewritten one.
  pub handle-MaySend :
      (server : Server) (req : Request) (target url : Text)
      → (handle sys server req).1 ≡ proxied target url
      → MaySend server req target url
  unfolding handle run
  handle-MaySend server req target url e = subst (IsAllowed server req) e (
      dispatch-IsAllowed server req layers (
        get-Allows server req _ cluster_name (value-Allows server req _),
        (
          get-Allows server req _ cluster_name (value-Allows server req _),
          (
            get-Allows server req _ project_id (value-Allows server req _),
            (
              get-Allows server req _ project_id (value-Allows server req _),
              (
                all-Allows server req _ proxy_envoy (λ m. inl (m, refl, refl)),
                (
                  all-Allows server req _ proxy_api (λ m. inr (inl (m, refl, refl))),
                  (
                    all-Allows server req _ proxy_rewritten_api (λ m. inr (inr (m, refl, refl))),
                    (
                      mounted_at_base-Allows server req base_path,
                      (
                        mounted_at_root-Allows server req [],
                        (get-Allows server req _ index tt, tt),
                      ),
                    ),
                  ),
                ),
              ),
            ),
          ),
        ),
      ))
