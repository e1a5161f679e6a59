-- ===== src/Transport/Dial/Closing.antt =====
-- The connections that `dialUTLS` of internal/transport/utls_client.go makes and closes.
use perplexity_proxy_go.Prelude.{
  ℕ, Bool, false, ◌≡◌, refl, ◌∙◌, inl, inr, List, [], ◌∷◌, ◌++◌, Option, none, some, String,
  Bool-cases, ◌==◌,
}
use mathlib.Core.List.{append-nil, append_assoc}
use perplexity_proxy_go.Errors.{Failure, Result, ok, err}
use perplexity_proxy_go.Transport.Client.{Host}
use perplexity_proxy_go.Transport.Hello.{HelloSpec, HelloCache, refresh_hello, hello_file}
use perplexity_proxy_go.Transport.Dial.{
  Net, Dialer, is_handshake_failure, dial_utls_opt, refresh_captured_hello, second_try, healed,
  dial_utls, after_first, fall_back, applied, apply_spec, apply_chrome_hello, shaken, with_host,
  connected, capture_after,
}

-- what is seen of a connection
pub data Event : Type 0 where
  opened : ℕ → Event
  closed : ℕ → Event

-- Each connection is closed before the next one is made.
pub data IsClosed : List Event → Type 0 where
  nothing : IsClosed []
  shut : {es : List Event} (conn : ℕ) → IsClosed es → IsClosed (opened conn ∷ closed conn ∷ es)

pub IsClosed-append : {es fs : List Event} → IsClosed es → IsClosed fs → IsClosed (es ++ fs)
IsClosed-append nothing g = g
IsClosed-append (shut conn h) g = shut conn (IsClosed-append h g)

-- the connection that a dial returns is open
abbrev pub left_open : Result ℕ → List Event
left_open (ok conn) = opened conn ∷ []
left_open (err e) = []

module _ (K C O R W : Type 0) (host : Host) (net : Net K C O R W) (log : W → List Event) where
  -- The log records what TCP does: a dial that succeeds makes a connection, `Close` closes one, and
  -- nothing else does either.
  pub record IsLogged : Type 0 where
    pub dial :
        (addr : String) (w : W) → log (net.dial addr w).1 ≡ log w ++ left_open (net.dial addr w).0
    pub close : (conn : ℕ) (w : W) → log (net.close conn w) ≡ log w ++ closed conn ∷ []
    pub u_client :
        (conn : ℕ) (name : String) (insecure : Bool) (w : W)
        → log (net.u_client conn name insecure w) ≡ log w
    pub apply_preset :
        (conn : ℕ) (spec : HelloSpec K C O R) (w : W) → log (net.apply_preset conn spec w).1 ≡ log w
    pub handshake : (conn : ℕ) (w : W) → log (net.handshake conn w).1 ≡ log w
    pub make_parent : (p : String) (w : W) → log (net.make_parent p w).1 ≡ log w
    pub capture :
        (python script out : String) (w : W) → log (net.capture python script out w).1 ≡ log w

  -- From one world to another, what was made is closed, but what the result leaves open.
  abbrev pub Closes : W → W → List Event → Type 0
  Closes w w' open_ones = (es : List Event) × IsClosed es × (log w' ≡ log w ++ (es ++ open_ones))

  module _ (logged : IsLogged) where
    log-fall_back :
        (spec : Option (HelloSpec K C O R)) (conn : ℕ) (w : W)
        → log (fall_back K C O R W host net spec conn w) ≡ log w
    log-fall_back none conn w = refl
    log-fall_back (some auto) conn w = logged.apply_preset conn auto w

    log-applied :
        (conn : ℕ) (r : Option Failure × W) → log (applied K C O R W host net conn r) ≡ log r.1
    log-applied conn (none, w) = refl
    log-applied conn (some e, w) = log-fall_back net.utls.chrome_auto conn w

    log-apply_spec :
        (conn : ℕ) (spec : Option (HelloSpec K C O R)) (w : W)
        → log (apply_spec K C O R W host net conn spec w) ≡ log w
    log-apply_spec conn none w = log-fall_back net.utls.chrome_auto conn w
    log-apply_spec conn (some spec) w =
        log-applied conn (net.apply_preset conn spec w) ∙ logged.apply_preset conn spec w

    log-apply_chrome_hello :
        (conn : ℕ) (d : Dialer K C O R W)
        → log (apply_chrome_hello K C O R W host net conn d).world ≡ log d.world
    unfolding apply_chrome_hello
    log-apply_chrome_hello conn d = log-apply_spec conn _ d.world

    pub log-close :
        (w0 : W) (conn : ℕ) (w : W)
        → log w ≡ log w0 ++ opened conn ∷ []
        → log (net.close conn w) ≡ log w0 ++ opened conn ∷ closed conn ∷ []
    log-close w0 conn w h = simp (logged.close conn w, h, append_assoc)

    -- after the connection was made: it is closed, or returned
    shaken-Closes :
        (w0 : W) (conn : ℕ) (cache : HelloCache K C O R) (r : Option Failure × W)
        → log r.1 ≡ log w0 ++ opened conn ∷ []
        → (let (x, d) = shaken K C O R W host net conn cache r in Closes w0 d.world (left_open x))
    shaken-Closes w0 conn cache (none, w) h = ([], nothing, h)
    shaken-Closes w0 conn cache (some e, w) h =
        (opened conn ∷ closed conn ∷ [], shut conn nothing, log-close w0 conn w h)

    with_host-Closes :
        (w0 : W) (insecure : Bool) (conn : ℕ) (name : Result String) (d : Dialer K C O R W)
        → log d.world ≡ log w0 ++ opened conn ∷ []
        → (let (x, d') = with_host K C O R W host net insecure conn name d in
            Closes w0 d'.world (left_open x))
    with_host-Closes w0 insecure conn (err e) d h =
        (opened conn ∷ closed conn ∷ [], shut conn nothing, log-close w0 conn d.world h)
    with_host-Closes w0 insecure conn (ok name) d h = shaken-Closes w0 conn _ _ (
        logged.handshake conn _
        ∙ log-apply_chrome_hello conn _
        ∙ logged.u_client conn name insecure d.world
        ∙ h)

    connected-Closes :
        (w0 : W) (addr : String) (insecure : Bool) (cache : HelloCache K C O R) (r : Result ℕ × W)
        → log r.1 ≡ log w0 ++ left_open r.0
        → (let (x, d) = connected K C O R W host net addr insecure cache r in
            Closes w0 d.world (left_open x))
    connected-Closes w0 addr insecure cache (err e, w) h = ([], nothing, h)
    connected-Closes w0 addr insecure cache (ok conn, w) h =
        with_host-Closes w0 insecure conn (net.split_host addr) _ h

    pub dial_utls_opt-Closes :
        (addr : String) (insecure : Bool) (d : Dialer K C O R W)
        → (let (x, d') = dial_utls_opt K C O R W host net addr insecure d in
            Closes d.world d'.world (left_open x))
    unfolding dial_utls_opt
    dial_utls_opt-Closes addr insecure d =
        connected-Closes d.world addr insecure d.cache (net.dial addr d.world)
          (logged.dial addr d.world)

    Closes-trans :
        (w0 w1 w2 : W) (open_ones : List Event)
        → Closes w0 w1 []
        → Closes w1 w2 open_ones
        → Closes w0 w2 open_ones
    Closes-trans w0 w1 w2 open_ones (es, c, h) (fs, c', h') =
        (es ++ fs, IsClosed-append c c', simp (h', h, append-nil, append_assoc))

    Closes-quiet : (w0 w1 : W) → log w1 ≡ log w0 → Closes w0 w1 []
    Closes-quiet w0 w1 h = ([], nothing, simp (h, append-nil))

    log-refresh_captured_hello :
        (w : W) → log (refresh_captured_hello K C O R W host net w).1 ≡ log w
    unfolding refresh_captured_hello
    log-refresh_captured_hello w = elim (Bool-cases (hello_file host == "")) [
      | inl nowhere ↦ rw nowhere refl
      | inr somewhere ↦ rw somewhere (
          log-capture_after (net.make_parent (hello_file host) w)
          ∙ logged.make_parent (hello_file host) w)
    ]
      where
        log-capture_after :
            (r : Option Failure × W)
            → log (capture_after K C O R W host net (hello_file host) r).1 ≡ log r.1
        log-capture_after (some e, w) = refl
        log-capture_after (none, w) = logged.capture _ _ _ w

    second_try-Closes :
        (w0 : W) (e : Failure) (r : Result ℕ × Dialer K C O R W)
        → Closes w0 r.1.world (left_open r.0)
        → (let (x, d) = second_try K C O R W host net e r in Closes w0 d.world (left_open x))
    second_try-Closes w0 e (ok conn, d) h = h
    second_try-Closes w0 e (err _, d) h = h

    healed-Closes :
        (w0 : W) (addr : String) (e : Failure) (cache : HelloCache K C O R) (m : Option Failure × W)
        → Closes w0 m.1 []
        → (let (x, d) = healed K C O R W host net addr e cache m in Closes w0 d.world (left_open x))
    healed-Closes w0 addr e cache (some _, w) h = h
    healed-Closes w0 addr e cache (none, w) h =
        let again : Dialer K C O R W = record { cache = refresh_hello K C O R; world = w } in
        let tried = dial_utls_opt K C O R W host net addr false again in
        second_try-Closes w0 e tried (
          Closes-trans w0 w tried.1.world (left_open tried.0) h
            (dial_utls_opt-Closes addr false again))

    after_first-Closes :
        (w0 : W) (addr : String) (r : Result ℕ × Dialer K C O R W)
        → Closes w0 r.1.world (left_open r.0)
        → (let (x, d) = after_first K C O R W host net addr r in Closes w0 d.world (left_open x))
    after_first-Closes w0 addr (ok conn, d) h = h
    after_first-Closes w0 addr (err e, d) h = elim (Bool-cases (is_handshake_failure e)) [
      | inl failure ↦ rw failure (
          let m = refresh_captured_hello K C O R W host net d.world in
          healed-Closes w0 addr e d.cache m (
            Closes-trans w0 d.world m.1 [] h
              (Closes-quiet d.world m.1 (log-refresh_captured_hello d.world))))
      | inr other ↦ rw other h
    ]

    -- Where the log records what the network does: of the connections that a dial makes, retries
    -- included, each is closed before the next one is made, but the one that it returns.
    pub dial_utls-Closes :
        (addr : String) (d : Dialer K C O R W)
        → (let (x, d') = dial_utls K C O R W host net addr d in
            Closes d.world d'.world (left_open x))
    unfolding dial_utls
    dial_utls-Closes addr d =
        after_first-Closes d.world addr (dial_utls_opt K C O R W host net addr false d)
          (dial_utls_opt-Closes addr false d)
