-- ===== src/Transport/Dial.antt =====
-- internal/transport/utls_client.go: the dial with its self-healing, and the choice of a round
-- tripper. TCP, TLS and the capture script are parameters.
pub mod Closing
pub mod Healing
use perplexity_proxy_go.Prelude.{
  ℕ, Bool, true, false, not, ◌||◌, List, [], ◌∷◌, Option, none, some, String, Bytes, ◌==◌, ◌⧺◌,
  contains, if◌then◌else◌,
}
use perplexity_proxy_go.Errors.{Failure, plain, message, Result, ok, err}
use perplexity_proxy_go.Act.{Act, next}
use perplexity_proxy_go.Transport.Client.{Host}
use perplexity_proxy_go.Transport.Hello.{
  HelloSpec, Utls, HelloCache, refresh_hello, load_hello_spec, hello_file,
}

-- `isHandshakeFailure`, of an error that is not nil
unfoldable pub is_handshake_failure : Failure → Bool
unfolding contains message
is_handshake_failure e =
    contains (message e) "handshake failure" || contains (message e) "HandshakeFailure"

-- `sourceDir`
abbrev source_dir : Host → String
source_dir host = if host.env "PPLX_HOME_DIR" == "" then "." else host.env "PPLX_HOME_DIR"

abbrev capture_script : Host → String
capture_script host =
    if host.env "PPLX_CAPTURE_SCRIPT" == ""
    then host.join_path (source_dir host ∷ "scripts" ∷ "capture_hello.py" ∷ [])
    else host.env "PPLX_CAPTURE_SCRIPT"

abbrev python : Host → String
python host = if host.env "PPLX_PYTHON" == "" then "python3" else host.env "PPLX_PYTHON"

module _ (K C O R W : Type 0) where
  -- the network, the process and the file system; connections are numbers
  pub record Net : Type 0 where
    pub utls : Utls K C O R
    pub embedded : Bytes
    pub read_file : W → String → Option Bytes
    -- `Dialer.DialContext`
    pub dial : String → Act W ℕ
    -- the host of `net.SplitHostPort`
    pub split_host : String → Result String
    pub close : ℕ → W → W
    -- `utls.UClient` of a connection, a server name, and whether verification is off
    pub u_client : ℕ → String → Bool → W → W
    -- `ApplyPreset`
    pub apply_preset : ℕ → HelloSpec K C O R → W → Option Failure × W
    pub handshake : ℕ → W → Option Failure × W
    -- `filepath.Dir` and `os.MkdirAll`
    pub make_parent : String → W → Option Failure × W
    -- the capture script, run by an interpreter with its output path
    pub capture : String → String → String → W → Option Failure × W

  -- the package's variables, and the world
  pub record Dialer : Type 0 where
    pub cache : HelloCache K C O R
    pub world : W

  module _ (host : Host) (net : Net) where
    abbrev fall_back : Option (HelloSpec K C O R) → ℕ → W → W
    fall_back none conn w = w
    fall_back (some auto) conn w = (net.apply_preset conn auto w).1

    abbrev applied : ℕ → Option Failure × W → W
    applied conn (none, w) = w
    applied conn (some e, w) = fall_back net.utls.chrome_auto conn w

    abbrev apply_spec : ℕ → Option (HelloSpec K C O R) → W → W
    apply_spec conn none w = fall_back net.utls.chrome_auto conn w
    apply_spec conn (some spec) w = applied conn (net.apply_preset conn spec w)

    -- `applyChromeHello`
    unfoldable pub apply_chrome_hello : ℕ → Dialer → Dialer
    unfolding load_hello_spec hello_file
    apply_chrome_hello conn d =
        let (spec, cache) =
          load_hello_spec K C O R net.utls net.embedded (hello_file host) (net.read_file d.world)
            d.cache in
        record { cache = cache; world = apply_spec conn spec d.world }

    abbrev shaken : ℕ → HelloCache K C O R → Option Failure × W → Result ℕ × Dialer
    shaken conn cache (none, w) = (ok conn, record { cache = cache; world = w })
    shaken conn cache (some e, w) = (err e, record { cache = cache; world = net.close conn w })

    abbrev greet : ℕ → Dialer → Result ℕ × Dialer
    greet conn d = shaken conn d.cache (net.handshake conn d.world)

    abbrev with_host : Bool → ℕ → Result String → Dialer → Result ℕ × Dialer
    with_host insecure conn (err e) d = (err e, record d { world = net.close conn d.world })
    with_host insecure conn (ok name) d =
        greet conn
          (apply_chrome_hello conn (record d { world = net.u_client conn name insecure d.world }))

    abbrev connected : String → Bool → HelloCache K C O R → Result ℕ × W → Result ℕ × Dialer
    connected addr insecure cache (err e, w) = (err e, record { cache = cache; world = w })
    connected addr insecure cache (ok conn, w) =
        with_host insecure conn (net.split_host addr) (record { cache = cache; world = w })

    -- `dialUTLSOpt`, without the lines that PPLX_DEBUG_DIAL prints
    unfoldable pub dial_utls_opt : String → Bool → Dialer → Result ℕ × Dialer
    unfolding apply_chrome_hello
    dial_utls_opt addr insecure d = connected addr insecure d.cache (net.dial addr d.world)

    abbrev capture_after : String → Option Failure × W → Option Failure × W
    capture_after out (some e, w) = (some e, w)
    capture_after out (none, w) = net.capture (python host) (capture_script host) out w

    -- `refreshCapturedHello`
    unfoldable pub refresh_captured_hello : W → Option Failure × W
    unfolding hello_file
    refresh_captured_hello w =
        let out = hello_file host in
        let run = capture_after out (net.make_parent out w) in
        if out == "" then (some (plain "no hello file path"), w) else run

    abbrev pub second_try : Failure → Result ℕ × Dialer → Result ℕ × Dialer
    second_try e (ok conn, d) = (ok conn, d)
    second_try e (err _, d) = (err e, d)

    abbrev pub healed :
        String → Failure → HelloCache K C O R → Option Failure × W → Result ℕ × Dialer
    healed addr e cache (some _, w) = (err e, record { cache = cache; world = w })
    healed addr e cache (none, w) =
        second_try e
          (dial_utls_opt addr false (record { cache = refresh_hello K C O R; world = w }))

    abbrev pub after_first : String → Result ℕ × Dialer → Result ℕ × Dialer
    after_first addr (ok conn, d) = (ok conn, d)
    after_first addr (err e, d) =
        let retried = healed addr e d.cache (refresh_captured_hello d.world) in
        if is_handshake_failure e then retried else (err e, d)

    -- `dialUTLS`
    unfoldable pub dial_utls : String → Dialer → Result ℕ × Dialer
    unfolding dial_utls_opt refresh_captured_hello is_handshake_failure
    dial_utls addr d = after_first addr (dial_utls_opt addr false d)

-- the round trippers: the plain one, the pooled HTTP/2 one, and a new HTTP/2 one
pub data RoundTripper : Type 0 where
  t1 pooled fresh : RoundTripper

-- `alpnRoundTripper.RoundTrip`, by the scheme of the request
unfoldable pub round_tripper : Host → String → RoundTripper
round_tripper host scheme =
    if not (scheme == "https")
    then t1
    else if host.env "PPLX_FRESH_CONN" == "1"
    then fresh
    else pooled

-- `canonicalAddr` of a URL's scheme, host name and port; `join` is `net.JoinHostPort`
unfoldable pub canonical_addr : (String → String → String) → String → String → String → String
canonical_addr join scheme name port =
    if not (port == "")
    then join name port
    else if scheme == "http"
    then join name "80"
    else join name "443"

-- the settings of the HTTP/2 transport that `newChromeH2Transport` makes
pub record H2Settings : Type 0 where
  pub max_decoder_header_table_size : ℕ
  pub max_encoder_header_table_size : ℕ
  pub max_header_list_size : ℕ
  pub max_read_frame_size : ℕ

abbrev pub chrome_h2_settings : H2Settings
chrome_h2_settings = record {
  max_decoder_header_table_size = 65536;
  max_encoder_header_table_size = 65536;
  max_header_list_size = 262144;
  max_read_frame_size = 16384;
}
