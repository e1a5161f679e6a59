-- ===== src/Transport/Probe.antt =====
-- The handshakes for probing of internal/transport/chrome_hello.go, `NewDebugTransport` of
-- utls_client.go, and `probeAutoSpec` of cmd/helloprobe2.
pub mod Closing
use perplexity_proxy_go.Prelude.{
  ℕ, true, false, List, [], ◌∷◌, Option, none, some, String, Bytes, ◌==◌, if◌then◌else◌,
}
use perplexity_proxy_go.Errors.{Failure, Result, ok, err}
use perplexity_proxy_go.Transport.Client.{Host}
use perplexity_proxy_go.Transport.Hello.{Extension, key_share, curves, other, HelloSpec}
use perplexity_proxy_go.Transport.Dial.{Net, Dialer, dial_utls, dial_utls_opt}

-- How a probe ends: it returns an error or none, or waits forever.
pub data ProbeEnd : Type 0 where
  returned : Option Failure → ProbeEnd
  hangs : ProbeEnd

module _ (K C O R W : Type 0) where
  -- what the probes call beside the network of the dial
  pub record ProbeTools : Type 0 where
    -- `net.Listen` on a free local port: its address
    pub listen : W → Result String × W
    -- what the goroutine that accepts a connection and reads from it once has sent, `none` where no
    -- connection comes
    pub received : W → Option (Result Bytes)
    pub close_listener : W → W
    pub write_file : String → Bytes → W → Option Failure × W
    -- `utls.UClient` with HelloChrome_Auto
    pub auto_client : ℕ → String → W → W
    -- the errors of `FromRaw` and of `UTLSIdToSpec`
    pub raw_error : Failure
    pub auto_error : Failure
    -- the X25519 key share, and the curves without ML-KEM
    pub x25519_share : K
    pub classic_curves : C

  module _ (host : Host) (net : Net K C O R W) (tools : ProbeTools) where
    abbrev listened : ProbeEnd → Dialer K C O R W → ProbeEnd × Dialer K C O R W
    listened e d = (e, record d { world = tools.close_listener d.world })

    abbrev error_of : Result ℕ → Option Failure
    error_of (ok conn) = none
    error_of (err e) = some e

    abbrev saved : Option Failure × W → Dialer K C O R W → ProbeEnd × Dialer K C O R W
    saved (e, w) d = listened (returned e) (record d { world = w })

    abbrev caught : String → Option (Result Bytes) → Dialer K C O R W → ProbeEnd × Dialer K C O R W
    caught out none d = (hangs, d)
    caught out (some (err e)) d = listened (returned (some e)) d
    caught out (some (ok hello)) d = saved (tools.write_file out hello d.world) d

    -- the connection of the dial, where there is one, is dropped
    abbrev dialed : String → Result ℕ × Dialer K C O R W → ProbeEnd × Dialer K C O R W
    dialed out (r, d) =
        if out == ""
        then listened (returned (error_of r)) d
        else caught out (tools.received d.world) d

    abbrev with_listener :
        String → Result String × W → Dialer K C O R W → ProbeEnd × Dialer K C O R W
    with_listener out (err e, w) d = (returned (some e), record d { world = w })
    with_listener out (ok addr, w) d =
        dialed out (dial_utls K C O R W host net addr (record d { world = w }))

    -- `ProbeHandshake`, which does not use its argument `addr`
    unfoldable pub probe_handshake :
        String → String → Dialer K C O R W → ProbeEnd × Dialer K C O R W
    unfolding dial_utls
    probe_handshake addr out d = with_listener out (tools.listen d.world) d

    abbrev pub closed : Result ℕ × Dialer K C O R W → Option Failure × Dialer K C O R W
    closed (err e, d) = (some e, d)
    closed (ok conn, d) = (none, record d { world = net.close conn d.world })

    -- `ProbeHandshakeReal`
    unfoldable pub probe_handshake_real :
        String → Dialer K C O R W → Option Failure × Dialer K C O R W
    unfolding dial_utls
    probe_handshake_real addr d = closed (dial_utls K C O R W host net addr d)

    -- what follows a handshake: the connection is closed in either case
    abbrev pub shaken_closed : ℕ → Option Failure × W → Option Failure × W
    shaken_closed conn (e, w) = (e, net.close conn w)

    abbrev pub name_or_empty : Result String → String
    name_or_empty (ok name) = name
    name_or_empty (err e) = ""

    abbrev pub auto_dialed : String → Result ℕ × W → Option Failure × W
    auto_dialed addr (err e, w) = (some e, w)
    auto_dialed addr (ok conn, w) =
        shaken_closed conn
          (net.handshake conn (tools.auto_client conn (name_or_empty (net.split_host addr)) w))

    -- `ProbeHandshakeAuto`
    unfoldable pub probe_handshake_auto : String → W → Option Failure × W
    probe_handshake_auto addr w = auto_dialed addr (net.dial addr w)

    abbrev classic : Extension K C O R → Extension K C O R
    classic (key_share k) = key_share tools.x25519_share
    classic (curves c) = curves tools.classic_curves
    classic (other o) = other o

    -- the loop over the extensions, which it changes through their pointers
    unfoldable pub without_mlkem : List (Extension K C O R) → List (Extension K C O R)
    without_mlkem [] = []
    without_mlkem (e ∷ es) = classic e ∷ without_mlkem es

    abbrev pub preset : ℕ → Option Failure × W → Option Failure × W
    preset conn (some e, w) = (some e, net.close conn w)
    preset conn (none, w) = shaken_closed conn (net.handshake conn w)

    abbrev pub preset_dialed : String → HelloSpec K C O R → Result ℕ × W → Option Failure × W
    preset_dialed addr spec (err e, w) = (some e, w)
    preset_dialed addr spec (ok conn, w) = preset conn (
        net.apply_preset conn spec
          (net.u_client conn (name_or_empty (net.split_host addr)) false w))

    abbrev pub with_raw : String → Option (HelloSpec K C O R) → W → Option Failure × W
    with_raw addr none w = (some tools.raw_error, w)
    with_raw addr (some spec) w =
        preset_dialed addr (record spec { extensions = without_mlkem spec.extensions })
          (net.dial addr w)

    -- `ProbeHandshakeNoMLKEM`
    unfoldable pub probe_handshake_no_mlkem : String → W → Option Failure × W
    unfolding without_mlkem
    probe_handshake_no_mlkem addr w = with_raw addr (net.utls.from_raw net.embedded) w

    abbrev pub auto_preset : String → Option (HelloSpec K C O R) → Result ℕ × W → Option Failure × W
    auto_preset addr spec (err e, w) = (some e, w)
    auto_preset addr none (ok conn, w) = (some tools.auto_error, net.close conn w)
    auto_preset addr (some spec) (ok conn, w) = preset_dialed addr spec (ok conn, w)

    -- `probeAutoSpec`
    unfoldable pub probe_auto_spec : String → W → Option Failure × W
    probe_auto_spec addr w = auto_preset addr net.utls.chrome_auto (net.dial addr w)

    -- the dial of `NewDebugTransport`, whose argument `baseURL` nothing uses
    abbrev debug_dial : String → String → Dialer K C O R W → Result ℕ × Dialer K C O R W
    debug_dial base_url addr d = dial_utls_opt K C O R W host net addr true d
