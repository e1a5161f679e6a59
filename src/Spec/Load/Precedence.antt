-- ===== src/Spec/Load/Precedence.antt =====
-- Which layer of the spec wins, value by value.
use perplexity_proxy_go.Prelude.{
  ◌≡◌, refl, ◌∙◌, true, false, ◌&&◌, List, [], ◌∷◌, All, Option, none, some, String, Bytes, ◌==◌,
  eq_iff, Bool-cases, inl, inr, if◌then◌else◌, lookup, arith,
}
use perplexity_proxy_go.Errors.{ok}
use perplexity_proxy_go.Json.{Codec}
use perplexity_proxy_go.Spec.Endpoints.{Endpoints, get, get-ask, get-record_ask, is_known, get-set}
use perplexity_proxy_go.Spec.Decode.{Spec, parse_embedded}
use perplexity_proxy_go.Spec.Load.{
  Env, content, Overrides, decode_overrides, override, set_path, set_paths, patch,
  apply_file_overrides, env_or, apply_env_overrides, load,
}

-- The keys of a decoded JSON object are distinct.
abbrev pub HasDistinctKeys : List (String × Option String) → Type 0
HasDistinctKeys [] = Unit
HasDistinctKeys ((k, _) ∷ ps) = All (λ p. (p.0 == k) ≡ false) ps × HasDistinctKeys ps

-- What the file says of an endpoint: nothing, for an unknown key, a missing one, or null.
abbrev pub said : Option (Option String) → Option String
said none = none
said (some v) = v

get-set_path :
    (key : String) (path : Option String) (e : Endpoints) (j : String)
    → get (set_path key path e) j
      ≡ (if key == j && is_known key then override path (get e j) else get e j)
unfolding set_path
get-set_path key none e j = ground arith
get-set_path key (some path) e j = get-set key j path e

lookup-absent :
    (key : String) (paths : List (String × Option String))
    → All (λ p. (p.0 == key) ≡ false) paths
    → lookup key paths ≡ none
unfolding lookup
lookup-absent key [] h = refl
lookup-absent key ((j, v) ∷ paths) (p, h) = rw p (lookup-absent key paths h)

pub get-set_paths :
    (paths : List (String × Option String)) (e : Endpoints) (j : String)
    → HasDistinctKeys paths
    → is_known j ≡ true
    → get (set_paths paths e) j ≡ override (said (lookup j paths)) (get e j)
unfolding set_paths lookup
get-set_paths [] e j h k = refl
get-set_paths ((key, path) ∷ paths) e j (d, h) k =
    get-set_paths paths (set_path key path e) j h k ∙ elim (Bool-cases (key == j)) [
      | inl same ↦
          let absent : lookup j paths ≡ none =
            rw (← (eq_iff key j).0 same) (lookup-absent key paths d) in
          let known : is_known key ≡ true = rw ((eq_iff key j).0 same) k in
          rw (absent, get-set_path, same, known) refl
      | inr differ ↦ rw (differ, get-set_path, differ) refl
    ]

pub get-env_ask :
    (v : String) (e : Endpoints) (j : String)
    → get (record e { ask = env_or v e.ask }) j
      ≡ (if "ask" == j then env_or v (get e j) else get e j)
get-env_ask v e j = get-record_ask (env_or v e.ask) e j ∙ elim (Bool-cases ("ask" == j)) [
  | inl same ↦ rw (same, ← (eq_iff "ask" j).0 same, get-ask) refl
  | inr differ ↦ rw differ refl
]

-- The layers, for a spec that loads from a readable overrides file: a non-empty environment
-- variable wins over the file, the file over the embedded value, for the base URL, the API
-- version, the cookie name and the ask endpoint; the file alone decides the other endpoints; and
-- models, defaults and headers are the embedded ones.
pub load-precedence :
    (codec : Codec) (embedded bs : Bytes) (path : String) (env : Env) (base : Spec) (ov : Overrides)
    (j : String)
    → parse_embedded codec embedded ≡ ok base
    → decode_overrides (codec.parse bs) ≡ ok ov
    → HasDistinctKeys ov.endpoints
    → is_known j ≡ true
    → (s : Spec) × (load codec embedded path (content bs) env ≡ ok s)
      × (s.base_url ≡ env_or (env "PPLX_BASE_URL") (override ov.base_url base.base_url))
      × (s.api_version ≡ env_or (env "PPLX_API_VERSION") (override ov.api_version base.api_version))
      × (s.session_cookie_name
          ≡ env_or
              (env "PPLX_SESSION_COOKIE_NAME")
              (override ov.session_cookie_name base.session_cookie_name))
      × (get s.endpoints j ≡ (
          if "ask" == j
          then env_or
              (env "PPLX_ENDPOINT_ASK")
              (override (said (lookup j ov.endpoints)) (get base.endpoints j))
          else override (said (lookup j ov.endpoints)) (get base.endpoints j)))
      × (s.models ≡ base.models)
      × (s.defaults ≡ base.defaults)
      × (s.headers ≡ base.headers)
unfolding load apply_file_overrides apply_env_overrides
load-precedence codec embedded bs path env base ov j p q h k =
    let layered =
      get-env_ask (env "PPLX_ENDPOINT_ASK") (set_paths ov.endpoints base.endpoints) j
      ∙ rw (get-set_paths ov.endpoints base.endpoints j h k) refl in
    (
      apply_env_overrides env (patch ov base),
      rw (p, q) refl,
      refl,
      refl,
      refl,
      layered,
      refl,
      refl,
      refl,
    )
