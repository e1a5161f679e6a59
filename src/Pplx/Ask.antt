-- ===== src/Pplx/Ask.antt =====
-- `Ask`, `AskStream`, `AskRaw` of internal/pplx/ask.go.
pub mod Fallback
pub mod Followup
pub mod Streaming
use perplexity_proxy_go.Prelude.{
  ℕ, Bool, true, false, not, ◌&&◌, ◌||◌, List, [], ◌∷◌, ◌++◌, Option, none, some, String, Bytes,
  bytes, ◌==◌, contains, take_runes, ◌⧺◌, is_digits, atoi, if◌then◌else◌,
}
use perplexity_proxy_go.Errors.{
  Failure, plain, wrapped, sentinel, authwalled, message, Result, ok, err, ◌>>=◌,
}
use perplexity_proxy_go.Act.{wrap_result}
use perplexity_proxy_go.Json.{
  Value, num, Fields, Codec, at, bad_json, to_str, to_struct, to_slice, to_document,
}
use perplexity_proxy_go.Spec.Decode.{Spec}
use perplexity_proxy_go.Transport.Client.{Client, Host}
use perplexity_proxy_go.Pplx.Sse.{Citation, State, start, keep, on_line}
use perplexity_proxy_go.Pplx.Bridge.{Bridge, bridge_enabled, bridge_auto, ask_via_bridge}
use perplexity_proxy_go.Pplx.Conversation.{
  adopt, AskOptions, Answer, Conversation, build_payload, search_path, bridge_request, or_else,
}

abbrev signatures : List String
signatures =
    "ErrRateLimited" ∷ "rate limit" ∷ "handshake" ∷ "connection error" ∷ "FLOW_CONTROL"
    ∷ "logged_out" ∷ "Sign up and repeat" ∷ "authwall" ∷ []

abbrev pub contains_any : String → List String → Bool
contains_any text [] = false
contains_any text (sig ∷ sigs) = contains text sig || contains_any text sigs

-- `bridgeWorthy` of an error
unfoldable pub bridge_worthy : Failure → Bool
bridge_worthy e = contains_any (message e) signatures

-- what `askDirect` and `AskStream` do once the stream has ended
unfoldable pub finish_stream : State × Option Failure → Conversation → Result Answer × Conversation
finish_stream (s, some e) c = (err (wrapped "ask: " e ""), c)
finish_stream (s, none) c = if s.authwalled then (err (sentinel authwalled), c) else (
  ok (record {
    text = s.answer;
    citations = s.citations;
    thread_title = s.title;
    uuid = (adopt s.backend_uuid s.read_write_token c).backend_uuid;
  }),
  adopt s.backend_uuid s.read_write_token c,
)

module _ {W : Type 0} (host : Host) (client : Client W) where
  abbrev searched :
      Result (Unit {0}) × W
      → (W → (State × Option Failure) × W)
      → Conversation
      → State × Result Answer × Conversation × W
  searched (err e, w) post c = (start false, err (wrapped "init search: " e ""), c, w)
  searched (ok _, w) post c =
      let (r, w') = post w in let (a, c') = finish_stream r c in (r.0, a, c', w')

  -- the common body of `askDirect` (no callback) and `AskStream`; what the callback got is in the
  -- state that comes back first
  unfoldable pub run_ask :
      Bool → String → AskOptions → Conversation → W → State × Result Answer × Conversation × W
  run_ask on_chunk query opt c w =
      searched (client.get (search_path host query c) w)
        (client.post_sse State (on_line host.codec) c.sp.endpoints.ask
          (build_payload host query opt c) (start on_chunk))
        c

  -- `askDirect`
  unfoldable pub ask_direct :
      String → AskOptions → Conversation → W → Result Answer × Conversation × W
  ask_direct query opt c w = let (s, a, c', w') = run_ask false query opt c w in (a, c', w')

  -- `AskStream`, with the deltas that it hands to `onChunk`
  unfoldable pub ask_stream :
      Bool → String → AskOptions → Conversation → W → List String × Result Answer × Conversation × W
  ask_stream on_chunk query opt c w =
      let (s, a, c', w') = run_ask on_chunk query opt c w in (s.emitted, a, c', w')

  abbrev raw_line : List Bytes → Bytes → List Bytes × Option Failure
  raw_line lines line = (lines ++ line ∷ [], none)

  abbrev posted_raw :
      Result (Unit {0}) × W
      → (W → (List Bytes × Option Failure) × W)
      → (List Bytes × Option Failure) × W
  posted_raw (err e, w) post = (([], some (wrapped "init search: " e "")), w)
  posted_raw (ok _, w) post = post w

  -- `AskRaw`: the raw lines, in order
  unfoldable pub ask_raw :
      String → AskOptions → Conversation → W → (List Bytes × Option Failure) × W
  ask_raw query opt c w =
      posted_raw (client.get (search_path host query c) w) (
        client.post_sse (List Bytes) raw_line c.sp.endpoints.ask (build_payload host query opt c)
          [])

module _ {W : Type 0} (host : Host) (client : Client W) (bridge : Bridge W) where
  abbrev pub retry :
      String → AskOptions → Result Answer × Conversation × W → Result Answer × Conversation × W
  retry query opt (ok a, c, w) = (ok a, c, w)
  retry query opt (err e, c, w) =
      if bridge_auto host && bridge_worthy e
      then ask_via_bridge host bridge query opt c w
      else (err e, c, w)

  -- `Ask`
  unfoldable pub ask : String → AskOptions → Conversation → W → Result Answer × Conversation × W
  ask query opt c w =
      if bridge_enabled host
      then ask_via_bridge host bridge query opt c w
      else retry query opt (ask_direct host client query opt c w)
