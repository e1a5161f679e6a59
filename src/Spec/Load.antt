-- ===== src/Spec/Load.antt =====
-- `Load` of internal/spec/spec.go: the embedded spec, then the overrides file, then the environment.
pub mod Precedence
use perplexity_proxy_go.Prelude.{
  List, [], ◌∷◌, ◌≡◌, Option, none, some, String, Bytes, ◌⧺◌, ◌==◌, if◌then◌else◌,
}
use perplexity_proxy_go.Errors.{Failure, wrapped, Result, ok, err, ◌>>=◌}
use perplexity_proxy_go.Act.{wrap_result}
use perplexity_proxy_go.Json.{
  Value, Fields, end, field, Codec, at, to_str_pointer, to_struct, to_document,
}
use perplexity_proxy_go.Spec.Endpoints.{Endpoints, set}
use perplexity_proxy_go.Spec.Decode.{Spec, parse_embedded}

-- `os.Getenv`
abbrev pub Env : Type 0
Env = String → String

-- `os.ReadFile`
pub data FileRead : Type 0 where
  missing : FileRead
  unreadable : Failure → FileRead
  content : Bytes → FileRead

-- the anonymous struct of `applyFileOverrides`
pub record Overrides : Type 0 where
  pub base_url : Option String
  pub api_version : Option String
  pub session_cookie_name : Option String
  pub endpoints : List (String × Option String)

unfoldable pub decode_paths : Fields → Result (List (String × Option String))
decode_paths end = ok []
decode_paths (field key v fs) = do
  path ← to_str_pointer (some v)
  paths ← decode_paths fs
  ok ((key, path) ∷ paths)

unfoldable pub decode_overrides : Option Value → Result Overrides
unfolding decode_paths
decode_overrides doc = do
  fs ← to_document doc
  base_url ← to_str_pointer (at "base_url" fs)
  api_version ← to_str_pointer (at "api_version" fs)
  cookie ← to_str_pointer (at "session_cookie_name" fs)
  es ← to_struct (at "endpoints" fs)
  paths ← decode_paths es
  ok (record {
    base_url = base_url;
    api_version = api_version;
    session_cookie_name = cookie;
    endpoints = paths;
  })

abbrev pub override : Option String → String → String
override none old = old
override (some v) old = v

set_path : String → Option String → Endpoints → Endpoints
set_path key none e = e
set_path key (some path) e = set key path e

-- `for key, val := range ov.Endpoints`
unfoldable pub set_paths : List (String × Option String) → Endpoints → Endpoints
unfolding set_path
set_paths [] e = e
set_paths ((key, path) ∷ paths) e = set_paths paths (set_path key path e)

abbrev pub patch : Overrides → Spec → Spec
patch ov s = record s {
  base_url = override ov.base_url s.base_url;
  api_version = override ov.api_version s.api_version;
  session_cookie_name = override ov.session_cookie_name s.session_cookie_name;
  endpoints = set_paths ov.endpoints s.endpoints;
}

-- `applyFileOverrides`, with the path of the file for its error texts
unfoldable pub apply_file_overrides : Codec → String → FileRead → Spec → Result Spec
apply_file_overrides codec path missing s = ok s
apply_file_overrides codec path (unreadable e) s = err (wrapped "read spec overrides: " e "")
apply_file_overrides codec path (content bs) s = do
  ov ←
      wrap_result (decode_overrides (codec.parse bs))
        (λ e. wrapped ("parse spec overrides " ⧺ path ⧺ ": ") e "")
  ok (patch ov s)

-- `if v := os.Getenv(…); v != "" { … = v }`
abbrev pub env_or : String → String → String
env_or v old = if v == "" then old else v

-- `applyEnvOverrides`
unfoldable pub apply_env_overrides : Env → Spec → Spec
apply_env_overrides env s = record s {
  base_url = env_or (env "PPLX_BASE_URL") s.base_url;
  api_version = env_or (env "PPLX_API_VERSION") s.api_version;
  session_cookie_name = env_or (env "PPLX_SESSION_COOKIE_NAME") s.session_cookie_name;
  endpoints = record s.endpoints { ask = env_or (env "PPLX_ENDPOINT_ASK") s.endpoints.ask };
}

-- `Load`
unfoldable pub load : Codec → Bytes → String → FileRead → Env → Result Spec
load codec embedded path file env = do
  s ← parse_embedded codec embedded
  s' ← apply_file_overrides codec path file s
  ok (apply_env_overrides env s')
