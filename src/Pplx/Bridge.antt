-- ===== src/Pplx/Bridge.antt =====
-- internal/pplx/bridge.go: `askViaBridge` and what it calls.
use perplexity_proxy_go.Prelude.{
  Bool, not, ◌&&◌, List, [], ◌∷◌, Option, none, some, String, Bytes, bytes, ◌==◌, take_runes, ◌⧺◌,
  if◌then◌else◌,
}
use perplexity_proxy_go.Errors.{Failure, plain, wrapped, Result, ok, err, ◌>>=◌}
use perplexity_proxy_go.Json.{Value, Codec, at, to_str, to_int, to_struct, to_slice, to_document}
use perplexity_proxy_go.Transport.Client.{Host}
use perplexity_proxy_go.Pplx.Sse.{Citation}
use perplexity_proxy_go.Pplx.Conversation.{
  adopt, AskOptions, Answer, Conversation, bridge_request, or_else,
}

-- The environment in which a bridge process runs: the interpreter, the script, and its input, to
-- its output and the error of the command, if any.
abbrev pub Bridge : Type 0 → Type 0
Bridge W = String → String → Bytes → W → String × Option Failure × W

-- `bridgePython`
unfoldable pub bridge_python : Host → String
bridge_python host =
    let venv : String = elim host.home [
      | none ↦ "python3"
      | some home ↦
          let cand = host.join_path (home ∷ ".pplx" ∷ "bridge-venv" ∷ "bin" ∷ "python" ∷ []) in
          if host.exists cand then cand else "python3"
    ] in
    or_else (host.env "PPLX_PYTHON") venv

-- `bridgeEnabled`
unfoldable pub bridge_enabled : Host → Bool
bridge_enabled host = host.env "PPLX_BRIDGE" == "1"

-- `bridgeAuto`
unfoldable pub bridge_auto : Host → Bool
bridge_auto host = not (host.env "PPLX_NO_BRIDGE" == "1") && not (host.env "PPLX_BRIDGE" == "0")

decode_citation : Value → Result Citation
decode_citation v = do
  fs ← to_struct (some v)
  index ← to_int (at "index" fs)
  title ← to_str (at "title" fs)
  url ← to_str (at "url" fs)
  ok (record { index = index; title = title; url = url })

unfoldable pub decode_citations : List Value → Result (List Citation)
unfolding decode_citation
decode_citations [] = ok []
decode_citations (v ∷ vs) = do c ← decode_citation v; cs ← decode_citations vs; ok (c ∷ cs)

-- the anonymous struct `res` of `askViaBridge`
pub record BridgeReply : Type 0 where
  pub answer : String
  pub citations : List Citation
  pub thread_title : String
  pub backend_uuid : String
  pub read_write_token : String
  pub error : String

unfoldable pub decode_reply : Option Value → Result BridgeReply
unfolding decode_citations
decode_reply doc = do
  fs ← to_document doc
  answer ← to_str (at "answer" fs)
  vs ← to_slice (at "citations" fs)
  citations ← decode_citations vs
  title ← to_str (at "thread_title" fs)
  uuid ← to_str (at "backend_uuid" fs)
  token ← to_str (at "read_write_token" fs)
  error ← to_str (at "error" fs)
  ok (record {
    answer = answer;
    citations = citations;
    thread_title = title;
    backend_uuid = uuid;
    read_write_token = token;
    error = error;
  })

abbrev pub answer_of_reply : BridgeReply → Conversation → Result Answer × Conversation
answer_of_reply r c =
    if r.error == ""
    then (
      ok (record {
        text = r.answer;
        citations = r.citations;
        thread_title = r.thread_title;
        uuid = (adopt r.backend_uuid r.read_write_token c).backend_uuid;
      }),
      adopt r.backend_uuid r.read_write_token c,
    )
    else (err (plain ("bridge: " ⧺ r.error)), c)

abbrev pub finish_decoded :
    String → Result BridgeReply → Conversation → Result Answer × Conversation
finish_decoded out (err e) c =
    (err (wrapped "bridge decode: " e (" (out: " ⧺ take_runes 200 out ⧺ ")")), c)
finish_decoded out (ok r) c = answer_of_reply r c

-- what `askViaBridge` makes of the process's output, or of its error
unfoldable pub finish_bridge :
    Codec → String → Option Failure → Conversation → Result Answer × Conversation
finish_bridge codec out (some e) c =
    (err (wrapped "bridge: " e (" (stdout: " ⧺ take_runes 300 out ⧺ ")")), c)
finish_bridge codec out none c = finish_decoded out (decode_reply (codec.parse (bytes out))) c

module _ {W : Type 0} (host : Host) (bridge : Bridge W) where
  -- `askViaBridge`
  unfoldable pub ask_via_bridge :
      String → AskOptions → Conversation → W → Result Answer × Conversation × W
  ask_via_bridge query opt c w =
      let (out, e, w') =
        bridge (bridge_python host)
          (or_else (host.env "PPLX_BRIDGE_SCRIPT") "scripts/bridge_ask.py")
          (host.codec.print (bridge_request query opt c)) w in
      let (a, c') = finish_bridge host.codec out e c in (a, c', w')
