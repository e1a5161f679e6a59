-- ===== src/Transport/Probe/Closing.antt =====
-- The connections that the handshakes for probing make and close.
use perplexity_proxy_go.Prelude.{
  ℕ, false, ◌≡◌, refl, ap, sym, Bool-cases, inl, inr, ◌==◌, Bytes, ◌∙◌, List, [], ◌∷◌, ◌++◌, Option,
  none, some, String,
}
use mathlib.Core.List.{append-nil, append_assoc}
use perplexity_proxy_go.Errors.{Failure, Result, ok, err}
use perplexity_proxy_go.Transport.Client.{Host}
use perplexity_proxy_go.Transport.Hello.{HelloSpec}
use perplexity_proxy_go.Transport.Dial.{Net, Dialer, dial_utls}
use perplexity_proxy_go.Transport.Dial.Closing.{
  Event, opened, closed, nothing, shut, left_open, IsClosed-append, IsLogged, Closes, log-close,
  dial_utls-Closes,
}
use perplexity_proxy_go.Transport.Probe
use perplexity_proxy_go.Transport.Probe.{
  ProbeEnd, returned, ProbeTools, listened, error_of, caught, dialed, with_listener,
  probe_handshake, name_or_empty, shaken_closed, auto_dialed, preset, preset_dialed, with_raw,
  auto_preset, probe_handshake_real, probe_handshake_auto, probe_handshake_no_mlkem,
  probe_auto_spec,
}

-- Every call of the tools of the probes leaves the log as it is.
pub record IsUnlogged (K C O R W : Type 0) (tools : ProbeTools K C O R W) (log : W → List Event)
    : Type 0 where
  pub listen : (w : W) → log (tools.listen w).1 ≡ log w
  pub close_listener : (w : W) → log (tools.close_listener w) ≡ log w
  pub write_file : (p : String) (bs : Bytes) (w : W) → log (tools.write_file p bs w).1 ≡ log w
  pub auto_client : (conn : ℕ) (name : String) (w : W) → log (tools.auto_client conn name w) ≡ log w

-- from one world to another, each connection that was made is closed
abbrev pub Shuts :
    (K C O R W : Type 0) (host : Host) (net : Net K C O R W) (log : W → List Event) → W → W → Type 0
Shuts K C O R W host net log w w' = Closes K C O R W host net log w w' []

module _ (K C O R W : Type 0) (host : Host) (net : Net K C O R W) (tools : ProbeTools K C O R W)
    (log : W → List Event) (logged : IsLogged K C O R W host net log)
    (unlogged : IsUnlogged K C O R W tools log) where
  shut_one :
      (w0 : W) (conn : ℕ) (w : W)
      → log w ≡ log w0 ++ opened conn ∷ []
      → Shuts K C O R W host net log w0 (net.close conn w)
  shut_one w0 conn w h = (
    opened conn ∷ closed conn ∷ [],
    shut conn nothing,
    log-close K C O R W host net log logged w0 conn w h,
  )

  shaken_closed-Shuts :
      (w0 : W) (conn : ℕ) (r : Option Failure × W)
      → log r.1 ≡ log w0 ++ opened conn ∷ []
      → Shuts K C O R W host net log w0 (shaken_closed K C O R W host net tools conn r).1
  shaken_closed-Shuts w0 conn (e, w) h = shut_one w0 conn w h

  nothing-Shuts : (w0 w : W) → log w ≡ log w0 ++ [] → Shuts K C O R W host net log w0 w
  nothing-Shuts w0 w h = ([], nothing, h)

  auto_dialed-Shuts :
      (w0 : W) (addr : String) (r : Result ℕ × W)
      → log r.1 ≡ log w0 ++ left_open r.0
      → Shuts K C O R W host net log w0 (auto_dialed K C O R W host net tools addr r).1
  auto_dialed-Shuts w0 addr (err e, w) h = nothing-Shuts w0 w h
  auto_dialed-Shuts w0 addr (ok conn, w) h =
      let name = name_or_empty K C O R W host net tools (net.split_host addr) in
      let w1 = tools.auto_client conn name w in
      shaken_closed-Shuts w0 conn (net.handshake conn w1)
        (logged.handshake conn w1 ∙ unlogged.auto_client conn name w ∙ h)

  preset-Shuts :
      (w0 : W) (conn : ℕ) (r : Option Failure × W)
      → log r.1 ≡ log w0 ++ opened conn ∷ []
      → Shuts K C O R W host net log w0 (preset K C O R W host net tools conn r).1
  preset-Shuts w0 conn (some e, w) h = shut_one w0 conn w h
  preset-Shuts w0 conn (none, w) h =
      shaken_closed-Shuts w0 conn (net.handshake conn w) (logged.handshake conn w ∙ h)

  preset_dialed-Shuts :
      (w0 : W) (addr : String) (spec : HelloSpec K C O R) (r : Result ℕ × W)
      → log r.1 ≡ log w0 ++ left_open r.0
      → Shuts K C O R W host net log w0 (preset_dialed K C O R W host net tools addr spec r).1
  preset_dialed-Shuts w0 addr spec (err e, w) h = nothing-Shuts w0 w h
  preset_dialed-Shuts w0 addr spec (ok conn, w) h =
      let name = name_or_empty K C O R W host net tools (net.split_host addr) in
      let w1 = net.u_client conn name false w in
      preset-Shuts w0 conn (net.apply_preset conn spec w1)
        (logged.apply_preset conn spec w1 ∙ logged.u_client conn name false w ∙ h)

  with_raw-Shuts :
      (addr : String) (spec : Option (HelloSpec K C O R)) (w : W)
      → Shuts K C O R W host net log w (with_raw K C O R W host net tools addr spec w).1
  with_raw-Shuts addr none w = nothing-Shuts w w (sym (append-nil (log w)))
  with_raw-Shuts addr (some spec) w =
      preset_dialed-Shuts w addr _ (net.dial addr w) (logged.dial addr w)

  auto_preset-Shuts :
      (w0 : W) (addr : String) (spec : Option (HelloSpec K C O R)) (r : Result ℕ × W)
      → log r.1 ≡ log w0 ++ left_open r.0
      → Shuts K C O R W host net log w0 (auto_preset K C O R W host net tools addr spec r).1
  auto_preset-Shuts w0 addr spec (err e, w) h = nothing-Shuts w0 w h
  auto_preset-Shuts w0 addr none (ok conn, w) h = shut_one w0 conn w h
  auto_preset-Shuts w0 addr (some spec) (ok conn, w) h =
      preset_dialed-Shuts w0 addr spec (ok conn, w) h

  closed-Shuts :
      (w0 : W) (r : Result ℕ × Dialer K C O R W)
      → Closes K C O R W host net log w0 r.1.world (left_open r.0)
      → Shuts K C O R W host net log w0 (Probe.closed K C O R W host net tools r).1.world
  closed-Shuts w0 (err e, d) h = h
  closed-Shuts w0 (ok conn, d) (es, c, h) = (
    es ++ opened conn ∷ closed conn ∷ [],
    IsClosed-append c (shut conn nothing),
    simp (logged.close conn d.world, h, append-nil, append_assoc),
  )

  -- the connection of the dial of `ProbeHandshake`, after `net.Listen`
  abbrev pub dial_of : Result String × W → Dialer K C O R W → List Event
  dial_of (err e, w) d = []
  dial_of (ok addr, w) d = left_open (dial_utls K C O R W host net addr (record d { world = w })).0

  log-listened :
      (e : ProbeEnd) (d : Dialer K C O R W)
      → log (listened K C O R W host net tools e d).1.world ≡ log d.world
  log-listened e d = unlogged.close_listener d.world

  log-caught :
      (out : String) (r : Option (Result Bytes)) (d : Dialer K C O R W)
      → log (caught K C O R W host net tools out r d).1.world ≡ log d.world
  log-caught out none d = refl
  log-caught out (some (err e)) d = log-listened (returned (some e)) d
  log-caught out (some (ok hello)) d =
      unlogged.close_listener _ ∙ unlogged.write_file out hello d.world

  log-dialed :
      (out : String) (r : Result ℕ × Dialer K C O R W)
      → log (dialed K C O R W host net tools out r).1.world ≡ log r.1.world
  log-dialed out (r, d) = elim (Bool-cases (out == "")) [
    | inl skip ↦ rw skip (log-listened (returned (error_of K C O R W host net tools r)) d)
    | inr given ↦ rw given (log-caught out (tools.received d.world) d)
  ]

  moved :
      (w0 : W) {w1 w w' : W} (open_ones : List Event)
      → log w1 ≡ log w0
      → log w' ≡ log w
      → Closes K C O R W host net log w1 w open_ones
      → Closes K C O R W host net log w0 w' open_ones
  moved w0 open_ones before after (es, c, h) =
      (es, c, after ∙ h ∙ ap (λ l. l ++ (es ++ open_ones)) before)

  with_listener-Closes :
      (out : String) (r : Result String × W) (d : Dialer K C O R W)
      → log r.1 ≡ log d.world
      → Closes K C O R W host net log d.world
          (with_listener K C O R W host net tools out r d).1.world
          (dial_of r d)
  with_listener-Closes out (err e, w) d h =
      moved d.world [] refl h ([], nothing, sym (append-nil (log d.world)))
  with_listener-Closes out (ok addr, w) d h =
      moved d.world (dial_of (ok addr, w) d) h
        (log-dialed out (dial_utls K C O R W host net addr (record d { world = w })))
        (dial_utls-Closes K C O R W host net log logged addr (record d { world = w }))

  -- Where the log records what the network does, and the tools of the probes make and close no
  -- connection: the production handshake against a host, that with HelloChrome_Auto, that without
  -- ML-KEM and that with the preset of HelloChrome_Auto close every connection that they make, however
  -- they end. `ProbeHandshake`, which drops the connection of its dial, closes every other one, and
  -- leaves that one open whenever the dial gives one.
  pub probes-Shuts :
      (addr out : String) (d : Dialer K C O R W)
      → Shuts K C O R W host net log d.world
          (probe_handshake_real K C O R W host net tools addr d).1.world
        × Shuts K C O R W host net log d.world
            (probe_handshake_auto K C O R W host net tools addr d.world).1
        × Shuts K C O R W host net log d.world
            (probe_handshake_no_mlkem K C O R W host net tools addr d.world).1
        × Shuts K C O R W host net log d.world
            (probe_auto_spec K C O R W host net tools addr d.world).1
        × Closes K C O R W host net log d.world
            (probe_handshake K C O R W host net tools addr out d).1.world
            (dial_of (tools.listen d.world) d)
  unfolding probe_handshake probe_handshake_real probe_handshake_auto probe_handshake_no_mlkem
      probe_auto_spec
  probes-Shuts addr out d = (
    closed-Shuts d.world (dial_utls K C O R W host net addr d)
        (dial_utls-Closes K C O R W host net log logged addr d),
    auto_dialed-Shuts d.world addr (net.dial addr d.world) (logged.dial addr d.world),
    with_raw-Shuts addr (net.utls.from_raw net.embedded) d.world,
    auto_preset-Shuts d.world addr net.utls.chrome_auto (net.dial addr d.world)
        (logged.dial addr d.world),
    with_listener-Closes out (tools.listen d.world) d (unlogged.listen d.world),
  )
