-- ===== src/Cli/Probes.antt =====
-- The programs for probing: cmd/bridgeprobe, cmd/helloprobe, cmd/helloprobe2 and cmd/frameprobe.
use perplexity_proxy_go.Prelude.{
  ℕ, List, [], ◌∷◌, Option, none, some, String, ◌⧺◌, take_runes, length,
}
use perplexity_proxy_go.Errors.{Failure, message, decimal, Result, ok, err}
use perplexity_proxy_go.Spec.Decode.{Spec, Model}
use perplexity_proxy_go.Spec.Model.{model}
use perplexity_proxy_go.Transport.Client.{Host}
use perplexity_proxy_go.Transport.Dial.{Net, Dialer}
use perplexity_proxy_go.Transport.Probe.{
  ProbeEnd, returned, hangs, ProbeTools, probe_handshake, probe_handshake_real, probe_auto_spec,
}
use perplexity_proxy_go.Pplx.Conversation.{Answer, Conversation, new_conversation}
use perplexity_proxy_go.Pplx.Probe.{bridge_probe, bridge_raw}
use perplexity_proxy_go.Cli.Shell.{Shell, spec_load}

-- How a program ends: with an exit code, in a panic, or not at all.
pub data Exit : Type 0 where
  exited : ℕ → Exit
  crashed : Exit
  stuck : Exit

-- an error printed by %v or Println
abbrev error_text : Option Failure → String
error_text none = "<nil>"
error_text (some e) = message e

module _ {W : Type 0} (sh : Shell W) (run : String → String → String → W → Option Failure × W)
    (read : String → W → Result String) where
  abbrev raw_line : Result String → String
  raw_line (ok out) = "RAW err=<nil>: " ⧺ take_runes 400 out ⧺ "\n"
  raw_line (err e) = "RAW err=" ⧺ message e ⧺ ": \n"

  abbrev raw_probed : Result String × W → Exit × W
  raw_probed (r, w) = (exited 0, sh.say (raw_line r) w)

  abbrev answer_line : Result Answer → String
  answer_line (ok a) =
      "answer="
      ⧺ sh.host.quote a.text
      ⧺ " citations="
      ⧺ decimal (length a.citations)
      ⧺ " err=<nil>\n"
  answer_line (err e) = "ans=nil err=" ⧺ message e ⧺ "\n"

  abbrev lookup_line : String → Model → String
  lookup_line name m =
      "model lookup "
      ⧺ sh.host.quote name
      ⧺ " -> identifier="
      ⧺ sh.host.quote m.identifier
      ⧺ " mode="
      ⧺ sh.host.quote m.mode
      ⧺ "\n"

  abbrev probed : Result Answer × Conversation × W → Exit × W
  probed (r, c, w) = raw_probed (
      bridge_raw sh.host run read "what is the capital of France? one word" "experimental"
        (sh.say (answer_line r) w))

  -- an error of `Load` is ignored, and its spec is nil
  abbrev with_spec : String → Result Spec → W → Exit × W
  with_spec name (err e) w = (crashed, w)
  with_spec name (ok sp) w =
      let m = model sp name in
      probed (
        bridge_probe sh.host sh.bridge "2+2? number only" m.identifier (new_conversation sp)
          (sh.say (lookup_line name m) w))

  -- `main` of cmd/bridgeprobe; the arguments are those after the program's name
  unfoldable pub bridgeprobe : List String → W → Exit × W
  unfolding spec_load model bridge_probe bridge_raw
  bridgeprobe [] w = (crashed, w)
  bridgeprobe (name ∷ rest) w = with_spec name (spec_load sh w) w

module _ (K C O R W : Type 0) (host : Host) (net : Net K C O R W) (tools : ProbeTools K C O R W)
    (say : String → W → W) where
  abbrev reported : ProbeEnd × Dialer K C O R W → Exit × Dialer K C O R W
  reported (returned e, d) =
      (exited 0, record d { world = say ("probe: " ⧺ error_text e ⧺ "\n") d.world })
  reported (hangs, d) = (stuck, d)

  -- `main` of cmd/helloprobe
  unfoldable pub helloprobe : Dialer K C O R W → Exit × Dialer K C O R W
  unfolding probe_handshake
  helloprobe d =
      reported (probe_handshake K C O R W host net tools "127.0.0.1:8443" (host.env "PROBE_OUT") d)

  abbrev said_auto : Option Failure × W → W
  said_auto (e, w) = say ("autospec via custom: " ⧺ error_text e ⧺ "\n") w

  abbrev said_real : Option Failure × Dialer K C O R W → Dialer K C O R W
  said_real (e, d) = record d {
    world = say ("prod dial (runtime file if any): " ⧺ error_text e ⧺ "\n") d.world;
  }

  abbrev then_auto : Dialer K C O R W → Exit × Dialer K C O R W
  then_auto d = (
    exited 0,
    record d {
      world = said_auto (probe_auto_spec K C O R W host net tools "www.perplexity.ai:443" d.world);
    },
  )

  -- `main` of cmd/helloprobe2
  unfoldable pub helloprobe2 : Dialer K C O R W → Exit × Dialer K C O R W
  unfolding probe_handshake_real probe_auto_spec
  helloprobe2 d =
      then_auto
        (said_real (probe_handshake_real K C O R W host net tools "www.perplexity.ai:443" d))

module _ {W : Type 0} (say : String → W → W) where
  abbrev framed : Result ℕ × W → Exit × W
  framed (err e, w) = (exited 1, say ("err: " ⧺ message e ⧺ "\n") w)
  framed (ok status, w) = (exited 0, say ("status: " ⧺ decimal status ⧺ "\n") w)

  -- `main` of cmd/frameprobe; `post` sends a JSON text to a URL through the client of
  -- `NewDebugTransport`, and gives the status
  unfoldable pub frameprobe : (String → String → String → W → Result ℕ × W) → W → Exit × W
  frameprobe post w = framed (
      post "https://127.0.0.1:9444" "https://127.0.0.1:9444/rest/sse/perplexity_ask"
        "{\"params\":{},\"query_str\":\"hi\"}" w)
