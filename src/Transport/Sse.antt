-- ===== src/Transport/Sse.antt =====
-- What `Client` of internal/transport/transport.go promises of `PostSSE`: it hands the callback each
-- line of the response, in order, and an error of the callback ends the stream and is returned;
-- internal/transport/plain.go adds that ErrStopScanning ends it without an error.
use perplexity_proxy_go.Prelude.{
  ◌≡◌, List, [], ◌∷◌, Option, none, some, String, Bytes, if◌then◌else◌,
}
use perplexity_proxy_go.Errors.{Failure, stop_scanning, is}
use perplexity_proxy_go.Json.{Value}
use perplexity_proxy_go.Transport.Scan.{OnLine}
use perplexity_proxy_go.Transport.Client.{Client}

-- `if errors.Is(err, ErrStopScanning) { return nil }`
abbrev pub quiet : Option Failure → Option Failure
quiet none = none
quiet (some e) = if is stop_scanning e then none else some e

-- an error stops, otherwise go on
abbrev pub settle :
    {S : Type 0} → S × Option Failure → (S → S × Option Failure) → S × Option Failure
settle (s, some e) k = (s, some e)
settle (s, none) k = k s

module _ {S : Type 0} (on_line : OnLine S) where
  -- the callback on each line in turn, up to its first error; then the stream's own end
  unfoldable pub run_lines : S → List Bytes → Option Failure → S × Option Failure
  run_lines s [] ending = (s, ending)
  run_lines s (line ∷ lines) ending = settle (on_line s line) (λ s'. run_lines s' lines ending)

-- What arrives for a request: the lines, how the stream ends, and the world after it.
pub record Response (W : Type 0) : Type 0 where
  pub lines : List Bytes
  pub ending : Option Failure
  pub after : W

pub record SseContract {W : Type 0} (client : Client W) : Type 1 where
  pub response : String → Value → W → Response W
  pub delivers :
      (S : Type 0) (f : OnLine S) (path : String) (body : Value) (s : S) (w : W)
      → client.post_sse S f path body s w ≡ (
        (
          (run_lines f s (response path body w).lines (response path body w).ending).0,
          quiet (run_lines f s (response path body w).lines (response path body w).ending).1,
        ),
        (response path body w).after,
      )
