-- ===== src/Cli/Show.antt =====
-- `cmdSpecShow` and `overrideSources` of cmd/pplx/commands_spec.go, and the JSON of a `Spec` by the
-- tags of internal/spec/spec.go. A spec with no models is printed with an empty array.
use perplexity_proxy_go.Prelude.{List, [], ◌∷◌, ◌++◌, String, ◌==◌, ◌⧺◌, join, if◌then◌else◌}
use perplexity_proxy_go.Errors.{plain, Result, ok, err}
use perplexity_proxy_go.Json.{Value, Values, nil, cons, bool, str, arr, obj, Fields, end, field}
use perplexity_proxy_go.Spec.Endpoints.{Endpoints, get}
use perplexity_proxy_go.Spec.Decode.{Headers, Defaults, Model, Spec, decode_spec}
use perplexity_proxy_go.Spec.Load.{Env}
use perplexity_proxy_go.Cli.Shell.{Shell, Done, spec_load}

abbrev pub endpoints_fields : Endpoints → Fields
endpoints_fields e = field "ask" (str e.ask) (
    field "search_init" (str e.search_init) (
      field "upload" (str e.upload) (
        field "rate_limits" (str e.rate_limits) (
          field "user_settings" (str e.user_settings) (
            field "list_threads" (str e.list_threads) (
              field "thread_detail" (str e.thread_detail) (
                field "credits" (str e.credits) (
                  field "auth_csrf" (str e.auth_csrf) (
                    field "auth_otp_redirect" (str e.auth_otp_redirect) (
                      field "auth_signin_email" (str e.auth_signin_email)
                        (field "auth_totp_verify" (str e.auth_totp_verify) end)))))))))))

abbrev pub headers_fields : Headers → Fields
headers_fields h =
    field "x-app-apiclient" (str h.app_api_client)
      (field "accept" (str h.accept) (field "content_type" (str h.content_type) end))

abbrev pub defaults_fields : Defaults → Fields
defaults_fields d = field "model" (str d.model) (
    field "prompt_source" (str d.prompt_source) (
      field "send_back_text_in_streaming_api" (bool d.send_back_text_in_streaming) (
        field "use_schematized_api" (bool d.use_schematized_api) (
          field "language" (str d.language) (
            field "source_focus" (str d.source_focus) (
              field "search_focus" (str d.search_focus) (
                field "search_recency_filter" (str d.search_recency_filter)
                  (field "save_to_library" (bool d.save_to_library) end))))))))

abbrev pub model_value : Model → Value
model_value m = obj (
    field "name" (str m.name)
      (field "identifier" (str m.identifier) (field "mode" (str m.mode) end)))

abbrev pub model_values : List Model → Values
model_values [] = nil
model_values (m ∷ ms) = cons (model_value m) (model_values ms)

-- a `Spec`, whose `Raw` is left out
abbrev pub spec_fields : Spec → Fields
spec_fields s = field "base_url" (str s.base_url) (
    field "api_version" (str s.api_version) (
      field "session_cookie_name" (str s.session_cookie_name) (
        field "endpoints" (obj (endpoints_fields s.endpoints)) (
          field "headers" (obj (headers_fields s.headers)) (
            field "defaults" (obj (defaults_fields s.defaults))
              (field "models" (arr (model_values s.models)) end))))))

abbrev endpoint_keys : List String
endpoint_keys =
    "ask" ∷ "search_init" ∷ "upload" ∷ "rate_limits" ∷ "user_settings" ∷ "list_threads"
    ∷ "thread_detail" ∷ "credits" ∷ "auth_csrf" ∷ "auth_otp_redirect" ∷ "auth_signin_email"
    ∷ "auth_totp_verify" ∷ []

abbrev changed_key : String → String → String → List String
changed_key key old new = if old == new then [] else key ∷ []

abbrev changed_paths : Endpoints → Endpoints → List String → List String
changed_paths old new [] = []
changed_paths old new (k ∷ ks) =
    changed_key ("endpoints." ⧺ k) (get old k) (get new k) ++ changed_paths old new ks

abbrev changed_keys : Spec → Spec → List String
changed_keys base eff =
    changed_key "api_version" base.api_version eff.api_version
    ++ changed_key "base_url" base.base_url eff.base_url
    ++ changed_key "session_cookie_name" base.session_cookie_name eff.session_cookie_name
    ++ changed_paths base.endpoints eff.endpoints endpoint_keys

abbrev file_source : List String → List String
file_source [] = []
file_source (k ∷ ks) = ("file/env (" ⧺ join ", " (k ∷ ks) ⧺ ")") ∷ []

abbrev from_base : Result Spec → Spec → List String
from_base (err e) eff = []
from_base (ok base) eff = file_source (changed_keys base eff)

abbrev env_sources : Env → List String → List String
env_sources env [] = []
env_sources env (k ∷ ks) =
    let rest = env_sources env ks in if env k == "" then rest else ("env " ⧺ k) ∷ rest

abbrev or_none : List String → List String
or_none [] = "none (embedded spec)" ∷ []
or_none (s ∷ ss) = s ∷ ss

module _ {W : Type 0} (sh : Shell W) where
  -- `overrideSources`
  unfoldable pub override_sources : Spec → List String
  unfolding decode_spec get
  override_sources eff = or_none (
      from_base (decode_spec (sh.host.codec.parse eff.raw) []) eff
      ++ env_sources sh.host.env (
          "PPLX_BASE_URL" ∷ "PPLX_API_VERSION" ∷ "PPLX_SESSION_COOKIE_NAME" ∷ "PPLX_ENDPOINT_ASK"
          ∷ []))

  abbrev text_of : Spec → String
  text_of sp = sh.text (sh.print_indented (obj (spec_fields sp)))

  abbrev shown : Result Spec → W → Done W
  shown (err e) w = (err e, w)
  shown (ok sp) w = (
    ok tt,
    sh.say (text_of sp ⧺ "\n")
        (sh.say ("# overrides applied: " ⧺ join ", " (override_sources sp) ⧺ "\n") w),
  )

  -- `cmdSpecShow`
  unfoldable pub cmd_spec_show : List String → W → Done W
  unfolding override_sources spec_load
  cmd_spec_show [] w = shown (spec_load sh w) w
  cmd_spec_show (arg ∷ args) w = (err (plain "usage: pplx spec show"), w)
