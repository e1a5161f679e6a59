-- ===== src/Pplx/Probe.antt =====
-- `BridgeProbe` and `BridgeRaw` of internal/pplx/bridge.go, which probe programs call.
use perplexity_proxy_go.Prelude.{Option, none, some, String}
use perplexity_proxy_go.Errors.{Failure, Result, err}
use perplexity_proxy_go.Act.{Act}
use perplexity_proxy_go.Transport.Client.{Host}
use perplexity_proxy_go.Pplx.Conversation.{Answer, Conversation, or_else}
use perplexity_proxy_go.Pplx.Bridge.{Bridge, ask_via_bridge}

module _ {W : Type 0} (host : Host) where
  -- `BridgeProbe`
  unfoldable pub bridge_probe :
      Bridge W → String → String → Conversation → W → Result Answer × Conversation × W
  unfolding ask_via_bridge
  bridge_probe bridge query model c w =
      ask_via_bridge host bridge query (record { model = model; source_focus = "" }) c w

  abbrev after_script : (W → Result String) → Option Failure × W → Result String × W
  after_script read (some e, w) = (err e, w)
  after_script read (none, w) = (read w, w)

  -- `BridgeRaw`, whose query and model the script does not get: `run` is the script run by an
  -- interpreter with its output path, and `read` reads that file
  unfoldable pub bridge_raw :
      (String → String → String → W → Option Failure × W)
      → (String → W → Result String)
      → String
      → String
      → Act W String
  bridge_raw run read query model w = after_script (read "/tmp/bridge_raw_out.json") (
      run (or_else (host.env "PPLX_PYTHON") "python3") "scripts/bridge_ask.py"
        "/tmp/bridge_raw_out.json" w)
