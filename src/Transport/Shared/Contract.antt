-- ===== src/Transport/Shared/Contract.antt =====
-- `PostSSE` keeps the contract of the interface.
use perplexity_proxy_go.Prelude.{
  Bool, true, false, ◌≡◌, refl, [], some, String, if◌then◌else◌, Bool-cases, inl, inr, ◌||◌, ◌==◌,
  starts_with,
}
use perplexity_proxy_go.Errors.{stop_scanning, is, Result, ok, err}
use perplexity_proxy_go.Act.{Act, next}
use perplexity_proxy_go.Json.{Value}
use perplexity_proxy_go.Transport.Scan.{OnLine, Stream}
use perplexity_proxy_go.Transport.Scan.Chunks.{IsOrdinary}
use perplexity_proxy_go.Transport.Sse.{quiet, run_lines, Response, SseContract}
use perplexity_proxy_go.Transport.Shared.Lines.{lines_of, scan_lines-eq-run_lines}
use perplexity_proxy_go.Transport.Shared.{
  shared, post, do_request, resolve, decompress_body, stream_result, is_good, failed_status,
  gunzipped,
}
use perplexity_proxy_go.Transport.Http.{Http, Shared, HttpResponse, Request}

abbrev pub response_of : {W : Type 0} → Http W → Result HttpResponse × W → Response W
response_of h (err e, w) = record { lines = []; ending = some e; after = w }
response_of h (ok r, w) =
    if is_good h r.code
    then record { lines = lines_of r.body; ending = r.body.ending; after = w }
    else record { lines = []; ending = some (failed_status h r); after = w }

-- an error of the result, where it has one, is not ErrStopScanning
abbrev pub IsQuiet : {A : Type 0} → Result A → Type 0
IsQuiet (ok a) = Unit
IsQuiet (err e) = is stop_scanning e ≡ false

next-IsQuiet :
    {W A B : Type 0} (r : Result A × W) (f : A → Act W B)
    → IsQuiet r.0
    → ((a : A) (w : W) → IsQuiet (f a w).0)
    → IsQuiet (next r f).0
next-IsQuiet (ok a, w) f q g = g a w
next-IsQuiet (err e, w) f q g = q

module _ {W : Type 0} (h : Http W) (c : Shared) where
  -- What the code relies on of net/http and compress/gzip: none of their errors is
  -- ErrStopScanning.
  pub record IsForeign : Type 0 where
    pub sends : (follow : Bool) (q : Request) (w : W) → IsQuiet (h.send follow q w).0
    pub gunzips : (s : Stream) → IsQuiet (h.gunzip s)

  resolve-IsQuiet : (path : String) → IsQuiet (resolve h c path)
  unfolding resolve
  resolve-IsQuiet path =
      elim (Bool-cases (starts_with path "http://" || starts_with path "https://")) [
        | inl absolute ↦ rw absolute tt
        | inr other ↦ elim (Bool-cases (starts_with path "/")) [
          | inl rooted ↦ rw (other, rooted) tt
          | inr bare ↦ rw (other, bare) refl
        ]
      ]

  gunzipped-IsQuiet : (r : HttpResponse) (s : Result Stream) → IsQuiet s → IsQuiet (gunzipped h r s)
  gunzipped-IsQuiet r (ok s) q = tt
  gunzipped-IsQuiet r (err e) q = q

  decompress_body-IsQuiet : IsForeign → (r : HttpResponse) → IsQuiet (decompress_body h r)
  unfolding decompress_body
  decompress_body-IsQuiet foreign r =
      elim (Bool-cases (h.lower (r.header "Content-Encoding") == "gzip")) [
        | inl zipped ↦ rw zipped (gunzipped-IsQuiet r (h.gunzip r.body) (foreign.gunzips r.body))
        | inr other ↦ elim (Bool-cases (h.lower (r.header "Content-Encoding") == "deflate")) [
          | inl flat ↦ rw (other, flat) tt
          | inr plain ↦ rw (other, plain) tt
        ]
      ]

  post-IsQuiet :
      IsForeign → (path : String) (body : Value) (w : W) → IsQuiet (post h true c path body w).0
  unfolding do_request
  post-IsQuiet foreign path body w =
      next-IsQuiet (resolve h c path, w) _ (resolve-IsQuiet path)
        (λ u w'.
          next-IsQuiet (h.send true _ w') _ (foreign.sends true _ w')
            (λ r w''. decompress_body-IsQuiet foreign r))

  stream_result-eq-run_lines :
      {S : Type 0} (on_line : OnLine S) (s : S) (r : Result HttpResponse × W)
      → IsQuiet r.0
      → ((x : HttpResponse) → r.0 ≡ ok x → IsOrdinary x.body)
      → stream_result h on_line s r ≡ (
        (
          (run_lines on_line s (response_of h r).lines (response_of h r).ending).0,
          quiet (run_lines on_line s (response_of h r).lines (response_of h r).ending).1,
        ),
        (response_of h r).after,
      )
  unfolding run_lines
  stream_result-eq-run_lines on_line s (err e, w) foreign ordinary = rw foreign refl
  stream_result-eq-run_lines on_line s (ok r, w) foreign ordinary =
      elim (Bool-cases (is_good h r.code)) [
        | inl good ↦ rw (good, scan_lines-eq-run_lines on_line s r.body (ordinary r refl)) refl
        | inr bad ↦ rw bad refl
      ]

  -- What a request brings that `PostSSE` sends.
  abbrev pub sse_response : String → Value → W → Response W
  sse_response path body w = response_of h (post h true c path body w)

  -- Where the Reads of every response fill their buffer at most, its lines stay one such buffer
  -- below the limit, and no error of the HTTP library is ErrStopScanning: `PostSSE` calls back on
  -- the response's lines in order, without blank ones and up to the first error, and returns that
  -- error, or the stream's, unless it is ErrStopScanning.
  pub post_sse-eq-run_lines :
      IsForeign
      → ((path : String) (body : Value) (w : W) (r : HttpResponse)
          → (post h true c path body w).0 ≡ ok r
          → IsOrdinary r.body)
      → (S : Type 0) (on_line : OnLine S) (path : String) (body : Value) (s : S) (w : W)
      → (shared h c).post_sse S on_line path body s w ≡ (
        (
          (run_lines on_line s
              (sse_response path body w).lines
              (sse_response path body w).ending).0,
          quiet
              (run_lines on_line s
                (sse_response path body w).lines
                (sse_response path body w).ending).1,
        ),
        (sse_response path body w).after,
      )
  post_sse-eq-run_lines foreign ordinary S on_line path body s w =
      stream_result-eq-run_lines on_line s (post h true c path body w)
        (post-IsQuiet foreign path body w) (ordinary path body w)

  pub shared-SseContract :
      IsForeign
      → ((path : String) (body : Value) (w : W) (r : HttpResponse)
          → (post h true c path body w).0 ≡ ok r
          → IsOrdinary r.body)
      → SseContract (shared h c)
  shared-SseContract foreign ordinary = record {
    response = sse_response;
    delivers = post_sse-eq-run_lines foreign ordinary;
  }
