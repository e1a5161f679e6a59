-- ===== src/Spec/Decode.antt =====
-- `Spec`, its parts, and their decoding, of internal/spec/spec.go.
use perplexity_proxy_go.Prelude.{Bool, List, [], ◌∷◌, Option, some, String, Bytes}
use perplexity_proxy_go.Errors.{wrapped, Result, ok, ◌>>=◌}
use perplexity_proxy_go.Act.{wrap_result}
use perplexity_proxy_go.Json.{
  Value, Fields, Codec, at, to_str, to_bool, to_struct, to_slice, to_document,
}
use perplexity_proxy_go.Spec.Endpoints.{Endpoints}

pub record Headers : Type 0 where
  pub app_api_client : String
  pub accept : String
  pub content_type : String

pub record Defaults : Type 0 where
  pub model : String
  pub prompt_source : String
  pub send_back_text_in_streaming : Bool
  pub use_schematized_api : Bool
  pub language : String
  pub source_focus : String
  pub search_focus : String
  pub search_recency_filter : String
  pub save_to_library : Bool

pub record Model : Type 0 where
  pub name : String
  pub identifier : String
  pub mode : String

pub record Spec : Type 0 where
  pub base_url : String
  pub api_version : String
  pub session_cookie_name : String
  pub endpoints : Endpoints
  pub headers : Headers
  pub defaults : Defaults
  pub models : List Model
  pub raw : Bytes

unfoldable pub decode_endpoints : Fields → Result Endpoints
decode_endpoints fs = do
  ask ← to_str (at "ask" fs)
  search_init ← to_str (at "search_init" fs)
  upload ← to_str (at "upload" fs)
  rate_limits ← to_str (at "rate_limits" fs)
  user_settings ← to_str (at "user_settings" fs)
  list_threads ← to_str (at "list_threads" fs)
  thread_detail ← to_str (at "thread_detail" fs)
  credits ← to_str (at "credits" fs)
  auth_csrf ← to_str (at "auth_csrf" fs)
  auth_otp_redirect ← to_str (at "auth_otp_redirect" fs)
  auth_signin_email ← to_str (at "auth_signin_email" fs)
  auth_totp_verify ← to_str (at "auth_totp_verify" fs)
  ok (record {
    ask = ask;
    search_init = search_init;
    upload = upload;
    rate_limits = rate_limits;
    user_settings = user_settings;
    list_threads = list_threads;
    thread_detail = thread_detail;
    credits = credits;
    auth_csrf = auth_csrf;
    auth_otp_redirect = auth_otp_redirect;
    auth_signin_email = auth_signin_email;
    auth_totp_verify = auth_totp_verify;
  })

unfoldable pub decode_headers : Fields → Result Headers
decode_headers fs = do
  client ← to_str (at "x-app-apiclient" fs)
  accept ← to_str (at "accept" fs)
  content_type ← to_str (at "content_type" fs)
  ok (record { app_api_client = client; accept = accept; content_type = content_type })

unfoldable pub decode_defaults : Fields → Result Defaults
decode_defaults fs = do
  model ← to_str (at "model" fs)
  prompt_source ← to_str (at "prompt_source" fs)
  send_back ← to_bool (at "send_back_text_in_streaming_api" fs)
  schematized ← to_bool (at "use_schematized_api" fs)
  language ← to_str (at "language" fs)
  source_focus ← to_str (at "source_focus" fs)
  search_focus ← to_str (at "search_focus" fs)
  recency ← to_str (at "search_recency_filter" fs)
  save ← to_bool (at "save_to_library" fs)
  ok (record {
    model = model;
    prompt_source = prompt_source;
    send_back_text_in_streaming = send_back;
    use_schematized_api = schematized;
    language = language;
    source_focus = source_focus;
    search_focus = search_focus;
    search_recency_filter = recency;
    save_to_library = save;
  })

unfoldable pub decode_model : Value → Result Model
decode_model v = do
  fs ← to_struct (some v)
  name ← to_str (at "name" fs)
  identifier ← to_str (at "identifier" fs)
  mode ← to_str (at "mode" fs)
  ok (record { name = name; identifier = identifier; mode = mode })

unfoldable pub decode_models : List Value → Result (List Model)
unfolding decode_model
decode_models [] = ok []
decode_models (v ∷ vs) = do m ← decode_model v; ms ← decode_models vs; ok (m ∷ ms)

-- `json.Unmarshal` into a `Spec`, whose `Raw` is left out of the JSON
unfoldable pub decode_spec : Option Value → Bytes → Result Spec
unfolding decode_endpoints decode_headers decode_defaults decode_models
decode_spec doc raw = do
  fs ← to_document doc
  base_url ← to_str (at "base_url" fs)
  api_version ← to_str (at "api_version" fs)
  cookie ← to_str (at "session_cookie_name" fs)
  es ← to_struct (at "endpoints" fs)
  endpoints ← decode_endpoints es
  hs ← to_struct (at "headers" fs)
  headers ← decode_headers hs
  ds ← to_struct (at "defaults" fs)
  defaults ← decode_defaults ds
  vs ← to_slice (at "models" fs)
  models ← decode_models vs
  ok (record {
    base_url = base_url;
    api_version = api_version;
    session_cookie_name = cookie;
    endpoints = endpoints;
    headers = headers;
    defaults = defaults;
    models = models;
    raw = raw;
  })

-- `parseEmbedded`
unfoldable pub parse_embedded : Codec → Bytes → Result Spec
unfolding decode_spec
parse_embedded codec embedded =
    wrap_result (decode_spec (codec.parse embedded) embedded)
      (λ e. wrapped "parse embedded spec: " e "")
