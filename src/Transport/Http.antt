-- ===== src/Transport/Http.antt =====
-- The engine of internal/transport/plain.go and what it calls: its options, the requests and
-- responses, and the parameter `Http` for net/http, net/url, compress/* and encoding/json.
use perplexity_proxy_go.Prelude.{ℕ, Bool, List, Option, String, Bytes}
use perplexity_proxy_go.Errors.{Result}
use perplexity_proxy_go.Json.{Value, Codec}
use perplexity_proxy_go.Transport.Scan.{Stream}
use perplexity_proxy_go.Transport.Jar.{Jar}

pub record Options : Type 0 where
  pub base_url : String
  pub api_version : String
  pub app_api_client : String
  pub accept : String
  pub content_type : String
  pub user_agent : String

-- a parsed base URL: its `String()` and its `Hostname()`
pub record Base : Type 0 where
  pub text : String
  pub hostname : String

pub record Request : Type 0 where
  pub method : String
  pub url : String
  pub headers : List (String × String)
  pub body : Option Bytes

pub record HttpResponse : Type 0 where
  pub code : ℕ
  -- `resp.Request.URL.String()`
  pub url : String
  -- `resp.Header.Get`
  pub header : String → String
  -- `resp.Location()`
  pub location : Option String
  pub body : Stream

pub record Http (W : Type 0) : Type 0 where
  pub codec : Codec
  pub quote : String → String
  pub lower : String → String
  -- `url.Parse`: `none` for an error or an empty host
  pub parse_base : String → Option Base
  -- `Client.Do`, with the redirects followed or not
  pub send : Bool → Request → W → Result HttpResponse × W
  pub gunzip : Stream → Result Stream
  pub inflate : Stream → Stream
  -- `json.NewDecoder(body).Decode`
  pub decode : Stream → Result Value
  -- `io.ReadAll` behind `io.LimitReader`
  pub read_at_most : ℕ → Stream → String
  pub jar : W → Jar
  pub put_jar : Jar → W → W

pub record Shared : Type 0 where
  pub base : Base
  pub opt : Options
