-- ===== src/Transport/Client.antt =====
-- `Client` of internal/transport/transport.go over a world `W`, and the platform functions that
-- the client code calls. The document that GetJSON or PostJSON decodes comes back as a value, which
-- its callers read as the struct that they hand over.
use perplexity_proxy_go.Prelude.{ℕ, List, Option, Bool, String}
use perplexity_proxy_go.Errors.{Failure}
use perplexity_proxy_go.Act.{Act}
use perplexity_proxy_go.Json.{Value, Codec}
use perplexity_proxy_go.Transport.Scan.{OnLine}

pub record Client (W : Type 0) : Type 1 where
  pub get : String → Act W (Unit {0})
  pub get_json : String → Act W Value
  -- the status and the location
  pub get_no_redirect : String → Act W (ℕ × String)
  pub post_json : String → Value → Act W Value
  -- the status, the location, and the body where it is JSON
  pub post_json_no_redirect : String → Value → Act W (ℕ × String × Option Value)
  pub post_sse : (S : Type 0) → OnLine S → String → Value → S → W → (S × Option Failure) × W
  pub set_cookie : String → String → W → W
  pub cookie : String → W → String

-- The environment, the clock's zone, net/url, path/filepath, os and encoding/json.
pub record Host : Type 0 where
  pub codec : Codec
  -- `os.Getenv`
  pub env : String → String
  -- the name that `time.Now().Zone()` gives
  pub zone : String
  -- `url.QueryEscape`
  pub query_escape : String → String
  -- `strconv.Quote`, the verb %q
  pub quote : String → String
  -- `filepath.Join`
  pub join_path : List String → String
  -- `os.UserHomeDir`, `none` for an error
  pub home : Option String
  -- whether `os.Stat` succeeds
  pub exists : String → Bool
