-- ===== src/Api/Concurrent/Phases.antt =====
-- One goroutine from `asking` on, against `ask` and `ask_stream`.
use mathlib.Core.Path.{subst}
use perplexity_proxy_go.Prelude.{true, false, ◌&&◌, ◌≡◌, refl, String, Bool-cases, inl, inr}
use perplexity_proxy_go.Errors.{Result, ok, err}
use perplexity_proxy_go.Pplx.Sse.{State}
use perplexity_proxy_go.Pplx.Conversation.{Answer, Conversation, search_path}
use perplexity_proxy_go.Pplx.Ask.{run_ask, ask, ask_direct, ask_stream, bridge_worthy, retry}
use perplexity_proxy_go.Pplx.Bridge.{ask_via_bridge, bridge_enabled, bridge_auto}
use perplexity_proxy_go.Api.Request.{HttpRequest}
use perplexity_proxy_go.Api.Events.{Reply, events, json_reply, stream_events}
use perplexity_proxy_go.Api.Server.{Live, Server, put_back}
use perplexity_proxy_go.Api.Concurrent.{
  Store, Pc, asking, bridging, replied, Job, Setup, move, after_ask, begin, conv_at, is_done,
}
use perplexity_proxy_go.Api.Concurrent.Models.{Models, Holds, Holds-Models, Holds-write}
use perplexity_proxy_go.Api.Concurrent.Branches.{
  begin_bridged, begin_native, begin_stream, after_ask_worthy, after_ask_hopeless, after_ask_json,
  after_ask_stream,
}

module _ {W : Type 0} (v : Setup W) (r : HttpRequest) (p0 : Pc) (s0 : Store W) where
  -- steps of one goroutine
  pub data Moves : Pc → Store W → Type 0 where
    rest : Moves p0 s0
    go :
        {q : Pc} {t : Store W}
        → Moves q t
        → is_done q ≡ false
        → Moves (move v r q t).0 (move v r q t).1

  -- The goroutine gets to the reply, and the store to the server's state.
  abbrev pub Ends : Reply × Server W → Type 0
  Ends h = (t : Store W) × Moves (replied h.0) t × Models t h.1

  module _ (id : String) (job : Job) (m : Server W) where
    bridge_end :
        (l : Live) (s : Store W)
        → Moves (bridging job) s
        → Holds id job.address l s m
        → Ends (
            let (a, c, w) = ask_via_bridge v.host v.bridge job.query job.opt l.conv s.world in
            (json_reply job.query job.model a, put_back id l c w m))
    unfolding ask_via_bridge move
    bridge_end l s mv h = rw (← h.here) (
      _,
      go (go (go mv refl) refl) refl,
      Holds-Models id job.address _ _ m _
          (Holds-write id (s.objects job.address) (record s { world = _ }) m job _
            (record { entry = h.entry; here = refl; alone = h.alone; aside = h.aside }))
          refl,
    )

    -- after the direct ask
    Asked : Live → Store W → State × Result Answer × Conversation × W → Type 0
    Asked l s (st, a, c, w) =
        (t : Store W) × Moves (after_ask v job st a) t
        × Holds id job.address (record l { conv = c }) t m
        × (t.world ≡ w)

    direct_got :
        (s : Store W) (g : Result (Unit {0}) × W)
        → (v.clients (s.objects job.address).t).get
            (search_path v.host job.query (conv_at job s))
            s.world
          ≡ g
        → Moves (asking job) s
        → Holds id job.address (s.objects job.address) s m
        → Asked (s.objects job.address) s (
            run_ask v.host
              (v.clients (s.objects job.address).t)
              job.stream
              job.query
              job.opt
              (conv_at job s)
              s.world)
    unfolding run_ask move Asked
    direct_got s (err e, w) got mv h =
        let sent = rw got at (go (go mv refl) refl) in
        rw got (
          record s { world = w },
          sent,
          record { entry = h.entry; here = refl; alone = h.alone; aside = h.aside },
          refl,
        )
    direct_got s (ok _, w) got mv h =
        let sent = rw got at (go (go mv refl) refl) in
        rw got (
          _,
          go (go sent refl) refl,
          Holds-write id (s.objects job.address) (record s { world = _ }) m job _
              (record { entry = h.entry; here = refl; alone = h.alone; aside = h.aside }),
          refl,
        )

    direct :
        (l : Live) (s : Store W)
        → Moves (asking job) s
        → Holds id job.address l s m
        → Asked l s (run_ask v.host (v.clients l.t) job.stream job.query job.opt l.conv s.world)
    direct l s mv h = rw (← h.here) (
        direct_got s _ refl mv
          (record { entry = h.entry; here = refl; alone = h.alone; aside = h.aside }))

    retry_end :
        (l : Live) (s : Store W) (a : Result Answer) (st : State) (c : Conversation) (w : W)
        → job.stream ≡ false
        → Asked l s (st, a, c, w)
        → Ends (
            let (a', c', w') = retry v.host (v.clients l.t) v.bridge job.query job.opt (a, c, w) in
            (json_reply job.query job.model a', put_back id l c' w' m))
    unfolding Asked
    retry_end l s (ok a) st c w json (t, mv, h, e) = (
      t,
      subst (λ p. Moves p t) (after_ask_json v job st a json) mv,
      Holds-Models id job.address _ t m w h e,
    )
    retry_end l s (err f) st c w json (t, mv, h, e) =
        elim (Bool-cases (bridge_auto v.host && bridge_worthy f)) [
          | inl worthy ↦
              rw (worthy, ← e)
                (bridge_end (record l { conv = c }) t
                  (subst (λ p. Moves p t) (after_ask_worthy v job st f json worthy) mv) h)
          | inr hopeless ↦ rw hopeless (
            t,
            subst (λ p. Moves p t) (after_ask_hopeless v job st f json hopeless) mv,
            Holds-Models id job.address _ t m w h e,
          )
        ]

    pub json_end :
        (l : Live) (s : Store W)
        → job.stream ≡ false
        → Moves (begin v job) s
        → Holds id job.address l s m
        → Ends (
            let (a, c, w) = ask v.host (v.clients l.t) v.bridge job.query job.opt l.conv s.world in
            (json_reply job.query job.model a, put_back id l c w m))
    unfolding ask ask_direct
    json_end l s json mv h = elim (Bool-cases (bridge_enabled v.host)) [
      | inl bridged ↦
          rw bridged
            (bridge_end l s (subst (λ p. Moves p s) (begin_bridged v job json bridged) mv) h)
      | inr native ↦
          let asked : Asked l s
              (run_ask v.host (v.clients l.t) false job.query job.opt l.conv s.world) =
            subst
              (λ b. Asked l s (run_ask v.host (v.clients l.t) b job.query job.opt l.conv s.world))
              json (direct l s (subst (λ p. Moves p s) (begin_native v job json native) mv) h) in
          rw native (retry_end l s _ _ _ _ json asked)
    ]

    pub stream_end :
        (l : Live) (s : Store W)
        → job.stream ≡ true
        → v.flushes ≡ true
        → Moves (begin v job) s
        → Holds id job.address l s m
        → Ends (
            let (ds, a, c, w) =
              ask_stream v.host (v.clients l.t) true job.query job.opt l.conv s.world in
            (events (stream_events job.query job.model ds a), put_back id l c w m))
    unfolding ask_stream Asked
    stream_end l s streams flushing mv h =
        let x = run_ask v.host (v.clients l.t) true job.query job.opt l.conv s.world in
        let asked : Asked l s x =
          subst (λ b. Asked l s (run_ask v.host (v.clients l.t) b job.query job.opt l.conv s.world))
            streams
            (direct l s (subst (λ p. Moves p s) (begin_stream v job streams flushing) mv) h) in
        let (t, mv', h', e) = asked in
        (
          t,
          subst (λ p. Moves p t) (after_ask_stream v job x.0 x.1 streams) mv',
          Holds-Models id job.address _ t m x.3 h' e,
        )
