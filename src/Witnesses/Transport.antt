-- ===== src/Witnesses/Transport.antt =====
-- The stream, the jar, and the transport's contract.
use mathlib.Core.List.{Pairwise, Permᴰ, filter_map, Mem, forall_mem-cons, not-mem-nil}
use native.Mathlib.Bridge.{le_prop}
use mathlib.Core.Path.{subst}
use perplexity_proxy_go.Prelude.{
  ◌<◌, ◌≡◌, refl, List, [], ◌∷◌, ◌++◌, Option, none, some, String, Bytes, true, lookup, arith, pos,
  if◌then◌else◌,
}
use perplexity_proxy_go.Errors.{Failure, Result, ok, err}
use perplexity_proxy_go.Act.{next}
use perplexity_proxy_go.Json.{Value, obj, end}
use perplexity_proxy_go.Transport.Scan.{Stream, drain, scan_lines}
use perplexity_proxy_go.Transport.Scan.Chunks.{IsOrdinary, text, reference, scan_lines-eq-reference}
use perplexity_proxy_go.Transport.Scan.Lines.{split, deliver, drain-eq-deliver}
use perplexity_proxy_go.Transport.Jar.{
  Jar, Cookie, Chunk, get, chunks_of, set_cookies, cookies_for, for_host, new_jar,
}
use perplexity_proxy_go.Transport.Jar.Chunks.{IsIncreasing, get-eq-join}
use perplexity_proxy_go.Transport.Jar.Sessions.{lookup-cookies_for-set_cookies, settle, verdict}
use perplexity_proxy_go.Transport.Sse.{quiet, run_lines}
use perplexity_proxy_go.Transport.Shared.{shared, post, do_request, resolve, decompress_body}
use perplexity_proxy_go.Transport.Http.{Http, HttpResponse, Shared}
use perplexity_proxy_go.Transport.Shared.Contract.{IsForeign, post_sse-eq-run_lines, sse_response}
use perplexity_proxy_go.Witnesses.Samples.{codec}

-- "ab\nc", then "d\r\n"
abbrev stream : Stream
stream = record {
  chunks = (b'a' ∷ b'b' ∷ 10 ∷ b'c' ∷ []) ∷ [];
  last = b'd' ∷ 13 ∷ 10 ∷ [];
  ending = none;
}

stream-IsOrdinary : IsOrdinary stream
unfolding split
stream-IsOrdinary = record {
  reads = (omega arith, tt);
  last = omega arith;
  lines = ((omega arith, (omega arith, tt)), omega arith);
}

abbrev collect : List Bytes → Bytes → List Bytes × Option Failure
collect seen line = (seen ++ line ∷ [], none)

scan_lines-eq-reference_example :
    scan_lines collect [] stream ≡ reference collect [] (text stream) none
scan_lines-eq-reference_example = scan_lines-eq-reference collect [] stream stream-IsOrdinary

abbrev jar : Jar
jar = record { host = "h"; cookies = ("s.10", "c") ∷ ("s.2", "b") ∷ [] }

abbrev sorted_chunks : List Chunk
sorted_chunks = record { idx = 2; val = "b" } ∷ record { idx = 10; val = "c" } ∷ []

sorted_chunks-perm : Permᴰ sorted_chunks (chunks_of "s" jar.cookies)
unfolding chunks_of filter_map
sorted_chunks-perm = Permᴰ.swap refl refl

second_above : (c : Chunk) → Mem c (record { idx = 10; val = "c" } ∷ []) → 2 < c.idx
second_above = (forall_mem-cons (λ x. le_prop)).1 (omega arith, λ x m. absurd (not-mem-nil m))

sorted_chunks-IsIncreasing : IsIncreasing sorted_chunks
sorted_chunks-IsIncreasing =
    Pairwise.cons second_above (Pairwise.cons (λ c m. absurd (not-mem-nil m)) Pairwise.nil)

absent_lem : lookup "s" jar.cookies ≡ none
unfolding lookup
absent_lem = refl

get-eq-join_example : get jar "s" ≡ "bc"
get-eq-join_example =
    get-eq-join jar "s" sorted_chunks absent_lem sorted_chunks-IsIncreasing sorted_chunks-perm

abbrev set_s : List Cookie
set_s = record { name = "s"; value = "v"; max_age = pos 0 } ∷ []

lookup-cookies_for-set_cookies_example :
    lookup "s" (cookies_for (set_cookies (new_jar "h") (some "h") set_s) (some "h")) ≡ (
      if for_host (new_jar "h") (some "h")
      then (if for_host (new_jar "h") (some "h")
          then settle (verdict "s" none set_s) (lookup "s" [])
          else lookup "s" [])
      else none)
lookup-cookies_for-set_cookies_example =
    lookup-cookies_for-set_cookies (new_jar "h") (some "h") (some "h") set_s "s"

abbrev response : HttpResponse
response = record {
  code = 200;
  url = "https://h/ask";
  header = λ k. "";
  location = none;
  body = stream;
}

abbrev pub http : Http Jar
http = record {
  codec = codec;
  quote = λ s. s;
  lower = λ s. s;
  parse_base = λ s. none;
  send = λ follow q j. (ok response, j);
  gunzip = λ s. ok s;
  inflate = λ s. s;
  decode = λ s. ok (obj end);
  read_at_most = λ n s. "";
  jar = λ j. j;
  put_jar = λ j j'. j;
}

abbrev pub origin : Shared
origin = record {
  base = record { text = "https://h"; hostname = "h" };
  opt = record {
    base_url = "https://h";
    api_version = "";
    app_api_client = "";
    accept = "";
    content_type = "";
    user_agent = "";
  };
}

http-IsForeign : IsForeign http origin
http-IsForeign = record { sends = λ follow q w. tt; gunzips = λ s. tt }

ok-injective : {A : Type 0} {a b : A} → ok a ≡ ok b → a ≡ b
ok-injective h = cc

by_url :
    (u : Result String) (w : Jar) (r : HttpResponse)
    → (next (u, w) (λ v w'. (decompress_body http response, w'))).0 ≡ ok r
    → IsOrdinary r.body
unfolding decompress_body
by_url (ok u) w r h = subst (λ x. IsOrdinary x.body) (ok-injective h) stream-IsOrdinary
by_url (err e) w r h = absurd cc

http-IsOrdinary :
    (path : String) (body : Value) (w : Jar) (r : HttpResponse)
    → (post http true origin path body w).0 ≡ ok r
    → IsOrdinary r.body
unfolding do_request
http-IsOrdinary path body w r h = by_url (resolve http origin path) w r h

post_sse-eq-run_lines_example :
    (shared http origin).post_sse (List Bytes) collect "/ask" (obj end) [] (new_jar "h") ≡ (
      let r = sse_response http origin "/ask" (obj end) (new_jar "h") in
      (
        (
          (run_lines collect [] r.lines r.ending).0,
          quiet (run_lines collect [] r.lines r.ending).1,
        ),
        r.after,
      ))
post_sse-eq-run_lines_example =
    post_sse-eq-run_lines http origin http-IsForeign http-IsOrdinary (List Bytes) collect "/ask"
      (obj end) [] (new_jar "h")

drain-eq-deliver_example :
    drain collect 5 (b'a' ∷ b'b' ∷ 10 ∷ b'c' ∷ []) []
    ≡ deliver collect []
        (split (b'a' ∷ b'b' ∷ 10 ∷ b'c' ∷ [])).0
        (split (b'a' ∷ b'b' ∷ 10 ∷ b'c' ∷ [])).1
drain-eq-deliver_example =
    drain-eq-deliver collect 5 (b'a' ∷ b'b' ∷ 10 ∷ b'c' ∷ []) [] (omega arith)
