-- ===== src/Transport/Shared.antt =====
-- `shared` of internal/transport/plain.go, the engine of both clients. net/http, net/url and
-- compress/* are the parameter `Http`; the jar is a part of the world, as net/http shares it.
pub mod Contract
pub mod Cookies
pub mod Lines
use perplexity_proxy_go.Prelude.{
  ℕ, pos, Bool, true, false, ◌&&◌, ◌||◌, not, List, [], ◌∷◌, Option, none, some, String, Bytes,
  Char, code, ◌==◌, starts_with, ◌⧺◌, ltb, leb, eqb, if◌then◌else◌,
}
use Prim.Native.String
use perplexity_proxy_go.Errors.{Failure, plain, wrapped, status, Result, ok, err}
use perplexity_proxy_go.Act.{Act, ◌>>=◌, lift, pure, fail}
use perplexity_proxy_go.Json.{Value, Codec}
use perplexity_proxy_go.Transport.Scan.{Stream, OnLine, scan_lines}
use perplexity_proxy_go.Transport.Jar.{Jar, new_jar, set_cookies, get}
use perplexity_proxy_go.Transport.Sse.{quiet}
use perplexity_proxy_go.Transport.Client.{Client}
use perplexity_proxy_go.Transport.Http.{Options, Base, Request, HttpResponse, Http, Shared}

abbrev default : String → String → String
default v other = if v == "" then other else v

abbrev default_user_agent : String
default_user_agent =
    "Mozilla/5.0 (Windows NT 10.0; Win64; x64) AppleWebKit/537.36 (KHTML, like Gecko) Chrome/150.0.0.0 Safari/537.36"

-- the assignments of `newShared` to its options
unfoldable pub with_defaults : Options → Options
with_defaults opt = record opt {
  accept = default opt.accept "text/event-stream, application/json";
  content_type = default opt.content_type "application/json";
  app_api_client = default opt.app_api_client "default";
  api_version = default opt.api_version "2.18";
  user_agent = default opt.user_agent default_user_agent;
}

-- `strings.TrimRight(s, "/")`
unfoldable pub trim_slashes : String → String
trim_slashes String.[] = ""
trim_slashes (String.◌∷◌ c s) =
    let rest = trim_slashes s in if rest == "" && eqb (code c) b'/' then "" else String.◌∷◌ c rest

-- the client, with the jar that it starts from
abbrev shared_on : Options → Option Base → String → Option Jar → Result (Shared × Jar)
shared_on opt none quoted jar = err (plain ("invalid base URL " ⧺ quoted))
shared_on opt (some base) quoted none =
    ok (record { base = base; opt = with_defaults opt }, new_jar base.hostname)
shared_on opt (some base) quoted (some jar) =
    ok (record { base = base; opt = with_defaults opt }, jar)

-- `newShared`, without its timeout
unfoldable pub new_shared : {W : Type 0} → Http W → Options → Option Jar → Result (Shared × Jar)
new_shared h opt jar =
    shared_on opt (h.parse_base (trim_slashes opt.base_url)) (h.quote opt.base_url) jar

-- `NewPlain` and `NewUTLS`, by the net/http client that they make
abbrev pub new_client : {W : Type 0} → Http W → Options → Result (Shared × Jar)
new_client h opt = new_shared h opt none

abbrev is_absolute : String → Bool
is_absolute path = starts_with path "http://" || starts_with path "https://"

-- `minimalHeaders`
abbrev pub minimal_headers : Shared → List (String × String)
minimal_headers c =
    ("User-Agent", c.opt.user_agent)
    ∷ ("Referer", c.base.text ⧺ "/")
    ∷ ("Origin", c.base.text)
    ∷ ("x-app-apiclient", c.opt.app_api_client)
    ∷ ("x-app-apiversion", c.opt.api_version)
    ∷ []

-- `appHeaders`
abbrev pub app_headers : Shared → List (String × String)
app_headers c =
    ("User-Agent", c.opt.user_agent)
    ∷ ("Referer", c.base.text ⧺ "/")
    ∷ ("Origin", c.base.text)
    ∷ ("Accept", c.opt.accept)
    ∷ ("Accept-Language", "en-US,en;q=0.9")
    ∷ ("Accept-Encoding", "gzip, deflate, br, zstd")
    ∷ ("Content-Type", c.opt.content_type)
    ∷ ("sec-ch-ua", "\"Not;A=Brand\";v=\"8\", \"Chromium\";v=\"150\", \"Google Chrome\";v=\"150\"")
    ∷ ("Priority", "u=0, i")
    ∷ ("sec-ch-ua-mobile", "?0")
    ∷ ("sec-ch-ua-platform", "\"Windows\"")
    ∷ ("sec-fetch-dest", "document")
    ∷ ("sec-fetch-mode", "navigate")
    ∷ ("sec-fetch-site", "none")
    ∷ ("sec-fetch-user", "?1")
    ∷ ("Upgrade-Insecure-Requests", "1")
    ∷ ("x-app-apiclient", c.opt.app_api_client)
    ∷ ("x-app-apiversion", c.opt.api_version)
    ∷ []

abbrev body_limit : ℕ
body_limit = 4096

module _ {W : Type 0} (h : Http W) where
  -- `resolve`
  unfoldable pub resolve : Shared → String → Result String
  resolve c path =
      if is_absolute path
      then ok path
      else if not (starts_with path "/")
      then err (plain ("endpoint path " ⧺ h.quote path ⧺ " must be absolute or start with /"))
      else ok (c.base.text ⧺ path)

  abbrev gunzipped : HttpResponse → Result Stream → Result HttpResponse
  gunzipped r (err e) = err (wrapped "gzip response: " e "")
  gunzipped r (ok body) = ok (record r { body = body })

  -- `decompressBody`
  unfoldable pub decompress_body : HttpResponse → Result HttpResponse
  decompress_body r =
      let encoding = h.lower (r.header "Content-Encoding") in
      if encoding == "gzip"
      then gunzipped r (h.gunzip r.body)
      else if encoding == "deflate"
      then ok (record r { body = h.inflate r.body })
      else ok r

  -- `newRequest` and `do`
  unfoldable pub do_request :
      Bool → Shared → String → String → List (String × String) → Option Bytes → Act W HttpResponse
  do_request follow c method path headers body = lift (resolve c path) >>= λ u.
      h.send follow (record { method = method; url = u; headers = headers; body = body }) >>= λ r.
      lift (decompress_body r)

  -- `post`
  abbrev pub post : Bool → Shared → String → Value → Act W HttpResponse
  post follow c path body =
      do_request follow c "POST" path (app_headers c) (some (h.codec.print body))

  abbrev pub failed_status : HttpResponse → Failure
  failed_status r = status r.code r.url (h.read_at_most body_limit r.body)

  abbrev pub is_good : ℕ → Bool
  is_good code = not (ltb code 200 || leb 300 code)

  -- `statusError`
  abbrev pub status_error : HttpResponse → Result (Unit {0})
  status_error r = if is_good r.code then ok tt else err (failed_status r)

  -- a response whose body was read to its end
  abbrev drained : HttpResponse → HttpResponse
  drained r = record r { body = record { chunks = []; last = []; ending = none } }

  abbrev location_or : Option String → String → String
  location_or (some l) other = l
  location_or none other = other

  -- `loc` of the methods that follow no redirect
  abbrev pub location_of : HttpResponse → String
  location_of r = location_or r.location (r.header "Location")

  abbrev tolerant : Result Value → Option Value
  tolerant (ok v) = some v
  tolerant (err e) = none

  -- the rest of `PostJSONNoRedirect` once the response is there
  abbrev pub redirect_result : HttpResponse → Result (ℕ × String × Option Value)
  redirect_result r =
      if leb 400 r.code
      then err (failed_status r)
      else ok (r.code, location_of r, tolerant (h.decode r.body))

  -- what `PostSSE` does with the response
  abbrev pub stream_result :
      {S : Type 0} → OnLine S → S → Result HttpResponse × W → (S × Option Failure) × W
  stream_result on_line s (err e, w) = ((s, some e), w)
  stream_result on_line s (ok r, w) =
      if is_good r.code
      then (((scan_lines on_line s r.body).0, quiet (scan_lines on_line s r.body).1), w)
      else ((s, some (failed_status r)), w)

  -- the cookie of `SetCookie` reaches the jar of the base URL
  abbrev pub stored : Shared → String → String → Jar → Jar
  stored c name value j =
      set_cookies j (some c.base.hostname)
        (record { name = name; value = value; max_age = pos 0 } ∷ [])

  -- the methods of `shared`
  abbrev pub shared : Shared → Client W
  shared c = record {
    get = λ path. do_request true c "GET" path (minimal_headers c) none >>= λ r.
        lift (status_error (drained r));
    get_json = λ path. do_request true c "GET" path (app_headers c) none >>= λ r.
        lift (status_error r) >>= λ _. lift (h.decode r.body);
    get_no_redirect = λ path. do_request false c "GET" path (minimal_headers c) none >>= λ r.
        pure (r.code, location_of r);
    post_json = λ path body.
        post true c path body >>= λ r. lift (status_error r) >>= λ _. lift (h.decode r.body);
    post_json_no_redirect = λ path body. post false c path body >>= λ r. lift (redirect_result r);
    post_sse = λ S on_line path body s w. stream_result on_line s (post true c path body w);
    set_cookie = λ name value w. h.put_jar (stored c name value (h.jar w)) w;
    cookie = λ name w. get (h.jar w) name;
  }
