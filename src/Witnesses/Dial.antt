-- ===== src/Witnesses/Dial.antt =====
-- The ClientHello and the dial.
use perplexity_proxy_go.Prelude.{
  ℕ, eqb, ◌≡◌, ◌⊎◌, refl, Bool, true, false, List, ◌++◌, [], ◌∷◌, none, some, if◌then◌else◌,
}
use perplexity_proxy_go.Errors.{plain, ok, err}
use perplexity_proxy_go.Transport.Hello.{
  key_share, curves, other, HelloSpec, Utls, replace, build_hybrid_spec,
}
use perplexity_proxy_go.Transport.Hello.Hybrid.{IsBare, build_hybrid_spec-IsBare}
use perplexity_proxy_go.Transport.Dial.{Net, Dialer, dial_utls, dial_utls_opt}
use perplexity_proxy_go.Transport.Dial.Closing.{
  Event, opened, closed, left_open, IsLogged, Closes, dial_utls-Closes,
}
use perplexity_proxy_go.Transport.Probe.{
  ProbeTools, probe_handshake, probe_handshake_real, probe_handshake_auto, probe_handshake_no_mlkem,
  probe_auto_spec,
}
use perplexity_proxy_go.Transport.Probe.Closing.{IsUnlogged, Shuts, dial_of, probes-Shuts}
use perplexity_proxy_go.Transport.Dial.Healing.{IsHealed, dial_utls-outcome}
use perplexity_proxy_go.Witnesses.Samples.{host}

abbrev layout : HelloSpec ℕ ℕ ℕ ℕ
layout = record { extensions = other 1 ∷ key_share 9 ∷ curves 2 ∷ other 4 ∷ []; rest = 5 }

abbrev utls : Utls ℕ ℕ ℕ ℕ
utls = record {
  from_raw = λ bs. some layout;
  chrome_auto = some (record { extensions = key_share 7 ∷ curves 3 ∷ []; rest = 6 });
}

abbrev bare : HelloSpec ℕ ℕ ℕ ℕ
bare = record { extensions = key_share 7 ∷ []; rest = 5 }

built : build_hybrid_spec ℕ ℕ ℕ ℕ utls [] ≡ some bare
unfolding build_hybrid_spec replace
built = refl

build_hybrid_spec-IsBare_example : IsBare ℕ ℕ ℕ ℕ (some layout) utls.chrome_auto bare
build_hybrid_spec-IsBare_example = build_hybrid_spec-IsBare ℕ ℕ ℕ ℕ utls [] bare built

-- a network whose first handshake fails, until a capture has run
abbrev net : Net ℕ ℕ ℕ ℕ ℕ
net = record {
  utls = utls;
  embedded = [];
  read_file = λ w p. none;
  dial = λ addr w. (ok 3, w);
  split_host = λ addr. ok addr;
  close = λ conn w. w;
  u_client = λ conn name insecure w. w;
  apply_preset = λ conn spec w. (none, w);
  handshake = λ conn w. if eqb w 0 then (some (plain "tls: handshake failure"), w) else (none, w);
  make_parent = λ p w. (none, w);
  capture = λ py script out w. (none, 1);
}

abbrev dialer : Dialer ℕ ℕ ℕ ℕ ℕ
dialer = record { cache = record { spec = none; src = "" }; world = 0 }

abbrev after : Dialer ℕ ℕ ℕ ℕ ℕ
after = record { cache = record { spec = some bare; src = "" }; world = 0 }

first_fails :
    dial_utls_opt ℕ ℕ ℕ ℕ ℕ host net "h" false dialer
    ≡ (err (plain "tls: handshake failure"), after)
unfolding dial_utls_opt
first_fails = refl

dial_utls-outcome_example :
    ((dial_utls ℕ ℕ ℕ ℕ ℕ host net "h" dialer).0 ≡ err (plain "tls: handshake failure"))
    ⊎ IsHealed ℕ ℕ ℕ ℕ ℕ host net "h"
        (plain "tls: handshake failure")
        after
        (dial_utls ℕ ℕ ℕ ℕ ℕ host net "h" dialer)
dial_utls-outcome_example =
    dial_utls-outcome ℕ ℕ ℕ ℕ ℕ host net "h" (plain "tls: handshake failure") dialer after
      first_fails

-- the same network, whose world is a log and whether a capture has run
abbrev Wire : Type 0
Wire = List Event × Bool

abbrev wired : Net ℕ ℕ ℕ ℕ Wire
wired = record {
  utls = utls;
  embedded = [];
  read_file = λ w p. none;
  dial = λ addr w. (ok 3, (w.0 ++ opened 3 ∷ [], w.1));
  split_host = λ addr. ok addr;
  close = λ conn w. (w.0 ++ closed conn ∷ [], w.1);
  u_client = λ conn name insecure w. w;
  apply_preset = λ conn spec w. (none, w);
  handshake = λ conn w. (if w.1 then none else some (plain "tls: handshake failure"), w);
  make_parent = λ p w. (none, w);
  capture = λ py script out w. (none, (w.0, true));
}

abbrev log : Wire → List Event
log w = w.0

logged : IsLogged ℕ ℕ ℕ ℕ Wire host wired log
logged = record {
  dial = λ addr w. refl;
  close = λ conn w. refl;
  u_client = λ conn name insecure w. refl;
  apply_preset = λ conn spec w. refl;
  handshake = λ conn w. refl;
  make_parent = λ p w. refl;
  capture = λ py script out w. refl;
}

abbrev wire_dialer : Dialer ℕ ℕ ℕ ℕ Wire
wire_dialer = record { cache = record { spec = none; src = "" }; world = ([], false) }

dial_utls-Closes_example :
    (let (x, d) = dial_utls ℕ ℕ ℕ ℕ Wire host wired "h" wire_dialer in
      Closes ℕ ℕ ℕ ℕ Wire host wired log ([], false) d.world (left_open x))
dial_utls-Closes_example = dial_utls-Closes ℕ ℕ ℕ ℕ Wire host wired log logged "h" wire_dialer

abbrev tools : ProbeTools ℕ ℕ ℕ ℕ Wire
tools = record {
  listen = λ w. (ok "127.0.0.1:1", w);
  received = λ w. none;
  close_listener = λ w. w;
  write_file = λ p bs w. (none, w);
  auto_client = λ conn name w. w;
  raw_error = plain "raw";
  auto_error = plain "auto";
  x25519_share = 8;
  classic_curves = 2;
}

unlogged : IsUnlogged ℕ ℕ ℕ ℕ Wire tools log
unlogged = record {
  listen = λ w. refl;
  close_listener = λ w. refl;
  write_file = λ p bs w. refl;
  auto_client = λ conn name w. refl;
}

probes-Shuts_example :
    Shuts ℕ ℕ ℕ ℕ Wire host wired log
      ([], false)
      (probe_handshake_real ℕ ℕ ℕ ℕ Wire host wired tools "h" wire_dialer).1.world
    × Shuts ℕ ℕ ℕ ℕ Wire host wired log
        ([], false)
        (probe_handshake_auto ℕ ℕ ℕ ℕ Wire host wired tools "h" ([], false)).1
    × Shuts ℕ ℕ ℕ ℕ Wire host wired log
        ([], false)
        (probe_handshake_no_mlkem ℕ ℕ ℕ ℕ Wire host wired tools "h" ([], false)).1
    × Shuts ℕ ℕ ℕ ℕ Wire host wired log
        ([], false)
        (probe_auto_spec ℕ ℕ ℕ ℕ Wire host wired tools "h" ([], false)).1
    × Closes ℕ ℕ ℕ ℕ Wire host wired log
        ([], false)
        (probe_handshake ℕ ℕ ℕ ℕ Wire host wired tools "h" "" wire_dialer).1.world
        (dial_of ℕ ℕ ℕ ℕ Wire host wired tools log logged unlogged
          (ok "127.0.0.1:1", ([], false))
          wire_dialer)
probes-Shuts_example =
    probes-Shuts ℕ ℕ ℕ ℕ Wire host wired tools log logged unlogged "h" "" wire_dialer
