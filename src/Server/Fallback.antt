-- ===== src/Server/Fallback.antt =====
-- frontend/server/server.ts: the requests that none of the servers behind this one is asked for.
use metadata.Prelude.{
  true, ◌||◌, List, [], ◌∷◌, ◌++◌, ◌≡◌, refl, ◌∙◌, drop, Option, none, some, if◌then◌else◌, ap,
  Bool-cases, inl, inr,
}
use metadata.Prelude.Texts.{Text, text}
use metadata.Server.{base_path, Server}
use metadata.Server.Routes.{
  Platform, Request, Response, sent_file, unanswered, not_found, api_path, layers, run, taken,
  tried, dispatch, handle, static_response, Layer, cluster_name, mounted, static_at_base,
  static_at_root, send_value, metadata_headers, proxy_api, proxy_rewritten_api,
}
use metadata.Server.Matching.{differ, same_but_case, IsExpress}
use metadata.Server.Forwarding.{skip_get, take_get, response, sends, skip_all, IsLate, late}

module _ (sys : Platform) where
  -- There is no static file for a request below a place.
  abbrev pub NoFile : Server → Request → Text → Type 0
  NoFile server req place =
      (path : Text)
      → sys.below place req.path ≡ some path
      → sys.static server.static_dir req.method path ≡ none

  mounted_at : Server → Request → Option Text → Option Response
  mounted_at server req o = elim o [
    | none ↦ none
    | some path ↦ static_response sys (sys.static server.static_dir req.method path)
  ]

  mounted_at-none :
      (server : Server) (req : Request) (o : Option Text)
      → ((path : Text) → o ≡ some path → sys.static server.static_dir req.method path ≡ none)
      → mounted_at server req o ≡ none
  unfolding mounted_at
  mounted_at-none server req none h = refl
  mounted_at-none server req (some path) h = rw (h path refl) refl

  skip_base :
      (server : Server) (ls : List Layer) (req : Request) (place : Text)
      → NoFile server req place
      → sends sys server (mounted place static_at_base ∷ ls) req ≡ sends sys server ls req
  unfolding dispatch tried taken run mounted_at
  skip_base server ls req place h =
      ap (λ o. elim o [ none ↦ sends sys server ls req | some r ↦ r ])
        (mounted_at-none server req (sys.below place req.path) h)

  skip_root :
      (server : Server) (ls : List Layer) (req : Request) (place : Text)
      → NoFile server req place
      → sends sys server (mounted place static_at_root ∷ ls) req ≡ sends sys server ls req
  unfolding dispatch tried taken run mounted_at
  skip_root server ls req place h =
      ap (λ o. elim o [ none ↦ sends sys server ls req | some r ↦ r ])
        (mounted_at-none server req (sys.below place req.path) h)

  last :
      IsExpress sys.matches
      → (server : Server) (req : Request)
      → sends sys server (drop 9 layers) req ≡ (
          if sys.gets req.method
          then sent_file (sys.resolve (server.static_dir ∷ text "index.html" ∷ []))
          else not_found)
  unfolding dispatch tried taken run same_but_case
  last e server req =
      rw (e.star [] [] req.path refl, dispatch, tried, taken)
        (elim (Bool-cases (sys.gets req.method)) [ inl g ↦ rw g refl | inr g ↦ rw g refl ])

  -- A path that is for none of the routes, and that no static file answers, gets the application's
  -- index page when the method is one that `app.get` handles, and else no page at all.
  pub unmatched-index :
      IsExpress sys.matches
      → (server : Server) (req : Request) → IsLate sys req.path
      → differ (api_path ++ text "*") req.path ≡ true
      → differ (base_path ++ (api_path ++ text "*")) req.path ≡ true
      → NoFile server req base_path
      → NoFile server req []
      → response sys server req ≡ (
          if sys.gets req.method
          then sent_file (sys.resolve (server.static_dir ∷ text "index.html" ∷ []))
          else not_found)
  unmatched-index e server req l api prefixed no_base no_root =
      late sys e server req l
      ∙ skip_all sys server (api_path ++ text "*") proxy_api (drop 6 layers) req (e.apart _ _ api)
      ∙ skip_all sys server (base_path ++ (api_path ++ text "*")) proxy_rewritten_api
          (drop 7 layers) req (e.apart _ _ prefixed)
      ∙ skip_base server (drop 8 layers) req base_path no_base
      ∙ skip_root server (drop 9 layers) req [] no_root
      ∙ last e server req

  value-failed :
      sys.fetch
          (text "http://metadata/computeMetadata/v1/instance/attributes/cluster-name")
          metadata_headers
        ≡ none
      → send_value sys (text "http://metadata/computeMetadata/v1/instance/attributes/cluster-name")
        ≡ unanswered
  unfolding send_value
  value-failed failed = rw (send_value, failed) refl

  -- When the metadata server cannot be fetched from, a request for the cluster's name, with the base
  -- path or without it, is never answered.
  pub value-unanswered :
      (server : Server) (req : Request)
      → sys.fetch
          (text "http://metadata/computeMetadata/v1/instance/attributes/cluster-name")
          metadata_headers
        ≡ none
      → sys.gets req.method ≡ true
      → (sys.matches (text "/system/cluster-name") req.path
          || sys.matches (base_path ++ text "/system/cluster-name") req.path)
        ≡ true
      → response sys server req ≡ unanswered
  unfolding handle run
  value-unanswered server req failed g m =
      let answer = ap some (value-failed failed) in
      elim (Bool-cases (sys.matches (text "/system/cluster-name") req.path)) [
        | inl e ↦
            take_get sys server (text "/system/cluster-name") cluster_name (drop 1 layers) req
              unanswered g e answer
        | inr e ↦
            skip_get sys server (text "/system/cluster-name") cluster_name (drop 1 layers) req e
            ∙ take_get sys server (base_path ++ text "/system/cluster-name") cluster_name
                (drop 2 layers) req unanswered g (rw e at m) answer
      ]
