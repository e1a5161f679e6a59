-- ===== src/Witnesses/Samples.antt =====
-- Inputs for the theorems: a world that counts requests, a spec, a platform and two transports.
use perplexity_proxy_go.Prelude.{
  ℕ, suc, eqb, refl, true, false, List, [], ◌∷◌, Option, none, some, String, Bytes, ◌⧺◌,
  if◌then◌else◌, lookup,
}
use perplexity_proxy_go.Errors.{sentinel, rate_limited, ok, err}
use perplexity_proxy_go.Json.{Value, num, str, obj, Fields, end, field, Codec}
use perplexity_proxy_go.Spec.Endpoints.{Endpoints}
use perplexity_proxy_go.Spec.Decode.{Model, Spec}
use perplexity_proxy_go.Transport.Client.{Client, Host}
use perplexity_proxy_go.Transport.Sse.{SseContract, run_lines, quiet}
use perplexity_proxy_go.Pplx.Bridge.{Bridge}
use perplexity_proxy_go.Pplx.Sse.Stream.{frame_of}
use perplexity_proxy_go.Pplx.Conversation.{AskOptions, Conversation, new_conversation}

abbrev pub endpoints : Endpoints
endpoints = record {
  ask = "/rest/sse/perplexity_ask";
  search_init = "/search/new";
  upload = "/upload";
  rate_limits = "/rest/rate-limit/all";
  user_settings = "/settings";
  list_threads = "/threads";
  thread_detail = "/thread";
  credits = "/credits";
  auth_csrf = "/api/auth/csrf";
  auth_otp_redirect = "/api/auth/otp";
  auth_signin_email = "/api/auth/signin/email";
  auth_totp_verify = "/api/auth/totp";
}

abbrev pub best : Model
best = record { name = "best"; identifier = "pplx_pro"; mode = "copilot" }

abbrev pub sonnet : Model
sonnet = record { name = "sonnet"; identifier = "claude"; mode = "copilot" }

abbrev pub spec : Spec
spec = record {
  base_url = "https://www.perplexity.ai";
  api_version = "2.18";
  session_cookie_name = "session";
  endpoints = endpoints;
  headers = record { app_api_client = "default"; accept = ""; content_type = "" };
  defaults = record {
    model = "best";
    prompt_source = "user";
    send_back_text_in_streaming = false;
    use_schematized_api = true;
    language = "en-US";
    source_focus = "web";
    search_focus = "internet";
    search_recency_filter = "";
    save_to_library = true;
  };
  models = sonnet ∷ best ∷ [];
  raw = [];
}

abbrev pub frame : Fields
frame =
    field "backend_uuid" (str "u1")
      (frame_of (record { progress = "IN_PROGRESS"; chunks = "4" ∷ "2" ∷ []; answer = none }))

abbrev pub embedded : Fields
embedded = field "base_url" (str "https://embedded") end

abbrev pub overrides : Fields
overrides =
    field "base_url" (str "https://file")
      (field "endpoints" (obj (field "ask" (str "/a") end)) (field "note" (str "mine") end))

abbrev pub ping : Fields
ping = field "id" (num "7") (field "method" (str "ping") end)

abbrev pub notification : Fields
notification = field "method" (str "notifications/initialized") end

-- The texts that this codec knows are told by their first byte.
abbrev pub parse : Bytes → Option Value
parse [] = none
parse (b ∷ rest) =
    if eqb b b'1'
    then some (obj frame)
    else if eqb b b'2'
    then some (obj embedded)
    else if eqb b b'3'
    then some (obj overrides)
    else if eqb b b'4'
    then some (obj ping)
    else if eqb b b'5'
    then some (obj notification)
    else none

abbrev pub codec : Codec
codec = record { parse = parse; print = λ v. [] }

abbrev pub env : List (String × String) → String → String
env vars k = elim (lookup k vars) [ none ↦ "" | some v ↦ v ]

abbrev pub host : Host
host = record {
  codec = codec;
  env = λ k. "";
  zone = "UTC";
  query_escape = λ s. s;
  quote = λ s. "\"" ⧺ s ⧺ "\"";
  join_path = λ ps. "";
  home = none;
  exists = λ p. false;
}

-- the lines of a response: a frame that carries the answer "42", and one that is no JSON
abbrev pub lines : List Bytes
lines =
    (b'd' ∷ b'a' ∷ b't' ∷ b'a' ∷ b':' ∷ b' ' ∷ b'1' ∷ [])
    ∷ (b'd' ∷ b'a' ∷ b't' ∷ b'a' ∷ b':' ∷ b'x' ∷ [])
    ∷ []

-- a transport that answers
abbrev pub client : Client ℕ
client = record {
  get = λ path w. (ok tt, suc w);
  get_json = λ path w. (ok (obj end), suc w);
  get_no_redirect = λ path w. (ok (302, "/auth/totp-challenge?token=t"), suc w);
  post_json = λ path body w. (ok (obj end), suc w);
  post_json_no_redirect = λ path body w. (ok (200, "", some (obj end)), suc w);
  post_sse = λ S f path body s w.
      (((run_lines f s lines none).0, quiet (run_lines f s lines none).1), suc w);
  set_cookie = λ name value w. w;
  cookie = λ name w. "secret";
}

abbrev pub contract : SseContract client
contract = record {
  response = λ path body w. record { lines = lines; ending = none; after = suc w };
  delivers = λ S f path body s w. refl;
}

-- a transport whose requests run into the rate limit
abbrev pub limited : Client ℕ
limited = record client { get = λ path w. (err (sentinel rate_limited), suc w) }

abbrev pub bridge : Bridge ℕ
bridge python script input w = ("", none, suc w)

abbrev pub opt : AskOptions
opt = record { model = ""; source_focus = "" }

abbrev pub conversation : Conversation
conversation = new_conversation spec
