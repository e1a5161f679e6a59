-- ===== src/Witnesses/Spec.antt =====
-- The layers of the spec, its endpoints and its models.
use perplexity_proxy_go.Prelude.{
  true, false, ◌≡◌, refl, [], ◌∷◌, none, some, ◌==◌, lookup, if◌then◌else◌,
}
use perplexity_proxy_go.Errors.{ok}
use perplexity_proxy_go.Spec.Endpoints.{get, is_known, endpoint_key}
use perplexity_proxy_go.Spec.Decode.{Spec, parse_embedded}
use perplexity_proxy_go.Spec.Load.{Overrides, content, decode_overrides, load, env_or, override}
use perplexity_proxy_go.Spec.Load.Precedence.{said, load-precedence}
use perplexity_proxy_go.Witnesses.Samples.{codec, env}

upload_known : is_known "upload" ≡ true
unfolding is_known endpoint_key
upload_known = refl

ask_known : is_known "ask" ≡ true
unfolding is_known endpoint_key
ask_known = refl

abbrev pub file : Overrides
file = record {
  base_url = some "https://file";
  api_version = none;
  session_cookie_name = none;
  endpoints = ("ask", some "/a") ∷ [];
}

abbrev pub blank_spec : Spec
blank_spec = record {
  base_url = "https://embedded";
  api_version = "";
  session_cookie_name = "";
  endpoints = record {
    ask = "";
    search_init = "";
    upload = "";
    rate_limits = "";
    user_settings = "";
    list_threads = "";
    thread_detail = "";
    credits = "";
    auth_csrf = "";
    auth_otp_redirect = "";
    auth_signin_email = "";
    auth_totp_verify = "";
  };
  headers = record { app_api_client = ""; accept = ""; content_type = "" };
  defaults = record {
    model = "";
    prompt_source = "";
    send_back_text_in_streaming = false;
    use_schematized_api = false;
    language = "";
    source_focus = "";
    search_focus = "";
    search_recency_filter = "";
    save_to_library = false;
  };
  models = [];
  raw = b'2' ∷ [];
}

embedded_lem : parse_embedded codec (b'2' ∷ []) ≡ ok blank_spec
unfolding parse_embedded
embedded_lem = refl

file_lem : decode_overrides (codec.parse (b'3' ∷ [])) ≡ ok file
unfolding decode_overrides
file_lem = refl

load-precedence_example :
    (s : Spec) × (load codec
        (b'2' ∷ [])
        "overrides.json"
        (content (b'3' ∷ []))
        (env (("PPLX_API_VERSION", "3") ∷ []))
      ≡ ok s)
    × (s.base_url
        ≡ env_or
            (env (("PPLX_API_VERSION", "3") ∷ []) "PPLX_BASE_URL")
            (override file.base_url blank_spec.base_url))
    × (s.api_version
        ≡ env_or
            (env (("PPLX_API_VERSION", "3") ∷ []) "PPLX_API_VERSION")
            (override file.api_version blank_spec.api_version))
    × (s.session_cookie_name
        ≡ env_or
            (env (("PPLX_API_VERSION", "3") ∷ []) "PPLX_SESSION_COOKIE_NAME")
            (override file.session_cookie_name blank_spec.session_cookie_name))
    × (get s.endpoints "ask" ≡ (
        if "ask" == "ask"
        then env_or
            (env (("PPLX_API_VERSION", "3") ∷ []) "PPLX_ENDPOINT_ASK")
            (override (said (lookup "ask" file.endpoints)) (get blank_spec.endpoints "ask"))
        else override (said (lookup "ask" file.endpoints)) (get blank_spec.endpoints "ask")))
    × (s.models ≡ blank_spec.models)
    × (s.defaults ≡ blank_spec.defaults)
    × (s.headers ≡ blank_spec.headers)
load-precedence_example =
    load-precedence codec (b'2' ∷ []) (b'3' ∷ []) "overrides.json"
      (env (("PPLX_API_VERSION", "3") ∷ [])) blank_spec file "ask" embedded_lem file_lem (tt, tt)
      ask_known
