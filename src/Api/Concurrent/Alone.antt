-- ===== src/Api/Concurrent/Alone.antt =====
-- A request that runs without another one coming in between, against `handle_messages`.
use mathlib.Core.Path.{subst}
use perplexity_proxy_go.Prelude.{
  ℕ, ◌<◌, false, ◌≡◌, ◌≢◌, refl, sym, ap, ◌∙◌, some, String, lookup, insert, Bool-cases, inl, inr,
}
use perplexity_proxy_go.Errors.{Result, ok, err}
use perplexity_proxy_go.Spec.Decode.{Spec}
use perplexity_proxy_go.Pplx.Conversation.{new_conversation}
use perplexity_proxy_go.Api.Request.{
  MessagesRequest, HttpRequest, Checked, passed, refused, read_request,
}
use perplexity_proxy_go.Api.Events.{Reply}
use perplexity_proxy_go.Api.Server.{
  Live, Server, found_or, conversation, put_back, serve, serve_json, serve_stream, handle_messages,
  checked,
}
use perplexity_proxy_go.Api.Server
use perplexity_proxy_go.Api.Server.Threads.{thread}
use perplexity_proxy_go.Api.Concurrent.{
  Store, Pc, arrived, making, made, replied, Setup, move, begin, conversation_at, found_at, job_of,
}
use perplexity_proxy_go.Api.Concurrent.Runs.{System}
use perplexity_proxy_go.Api.Concurrent.Models.{
  Models, Holds-Models, Holds-insert, Holds-found, found_at-world,
}
use perplexity_proxy_go.Api.Concurrent.Branches.{
  begin_unable, answered, streamed, serve_json_lem, serve_stream_lem, serve_unable,
}
use perplexity_proxy_go.Api.Concurrent.Phases.{Moves, rest, go, Ends, json_end, stream_end}
use perplexity_proxy_go.Api.Concurrent.Effects.{eqb→eq, eqb_self}
use perplexity_proxy_go.Prelude.{eqb}
use perplexity_proxy_go.Api.Concurrent.Sharing.{Run-Inv, init-Inv}
use perplexity_proxy_go.Api.Concurrent.Runs.{Run, stay, later, pick, advance, init}

-- no two threads share a conversation, and each is allocated
record IsProper {W : Type 0} (s : Store W) : Type 0 where
  allocated : (j : String) (a : ℕ) → lookup j s.convs ≡ some a → a < s.next
  distinct : (j k : String) (a : ℕ) → lookup j s.convs ≡ some a → lookup k s.convs ≡ some a → j ≡ k

module _ {W : Type 0} (v : Setup W) (r : HttpRequest) (p0 : Pc) (s0 : Store W) where
  serve_end :
      (req : MessagesRequest) (query : String) (t : ℕ) (sp : Spec) (s : Store W) (m : Server W)
      → IsProper s
      → Models s m
      → Moves v r p0 s0 (made req query t sp) s
      → Ends v r p0 s0 (serve v.host v.clients v.bridge v.flushes r req query t sp m)
  unfolding move conversation_at
  serve_end req query t sp s m proper models mv =
      let id = thread r in
      let new : Live = record { t = t; conv = new_conversation sp } in
      let l = found_or (lookup id m.convs) new in
      let m1 = record m { convs = insert id l m.convs } in
      let o = lookup id s.convs in
      let s1 = (found_at o id new s).1 in
      let job = job_of v req query sp (found_at o id new s).0 in
      let found : Moves v r p0 s0 (begin v job) s1 = go mv refl in
      let held = Holds-found id t sp s m o refl models proper.allocated proper.distinct in
      let held1 = Holds-insert id job.address l l s1 m held in
      let same : s1.world ≡ m.world = found_at-world id o new s ∙ sym models.world in
      elim (Bool-cases req.stream) [
        | inl streams ↦ elim (Bool-cases v.flushes) [
          | inl flushing ↦
              subst (Ends v r p0 s0)
                (ap (streamed v id l query req.model job.opt m1) same
                  ∙ sym (serve_stream_lem v r req query t sp m v.flushes streams flushing))
                (stream_end v r p0 s0 id job m1 l s1 streams flushing found held1)
          | inr unable ↦
              subst (Ends v r p0 s0)
                (sym (serve_unable v r req query t sp m v.flushes streams unable))
                (
                  s1,
                  subst (λ p. Moves v r p0 s0 p s1) (begin_unable v job streams unable) found,
                  Holds-Models id job.address l s1 m m.world held same,
                )
        ]
        | inr json ↦
            subst (Ends v r p0 s0)
              (ap (answered v id l query req.model job.opt m1) same
                ∙ sym (serve_json_lem v r req query t sp m v.flushes json))
              (json_end v r p0 s0 id job m1 l s1 json found held1)
      ]

  factory_end :
      (req : MessagesRequest) (query : String) (f : Result (ℕ × Spec) × W) (s : Store W)
      (m : Server W)
      → v.factory s.world ≡ f
      → IsProper s
      → Models s m
      → Moves v r p0 s0 (making req query) s
      → Ends v r p0 s0
          (Server.made v.host v.clients v.bridge v.factory v.api_key v.flushes r req query f m)
  unfolding move
  factory_end req query (err e, w) s m f proper models mv =
      (record s { world = w }, rw f at (go mv refl), record { world = refl; convs = models.convs })
  factory_end req query (ok (t, sp), w) s m f proper models mv =
      serve_end req query t sp (record s { world = w }) (record m { world = w })
        (record { allocated = proper.allocated; distinct = proper.distinct })
        (record { world = refl; convs = models.convs }) (rw f at (go mv refl))

  checked_end :
      (c : Checked (MessagesRequest × String)) (s : Store W) (m : Server W)
      → read_request v.host v.api_key r ≡ c
      → IsProper s
      → Models s m
      → Moves v r p0 s0 arrived s
      → Ends v r p0 s0 (checked v.host v.clients v.bridge v.factory v.api_key v.flushes r c m)
  unfolding move
  checked_end (refused status type msg) s m read proper models mv =
      (s, rw read at (go mv refl), models)
  checked_end (passed (req, query)) s m read proper models mv =
      factory_end req query (v.factory m.world) s m (ap v.factory (sym models.world)) proper models
        (rw read at (go mv refl))

-- the server that takes a request at a time
abbrev pub handled : {W : Type 0} → Setup W → HttpRequest → Server W → Reply × Server W
handled v = handle_messages v.host v.clients v.bridge v.factory v.api_key v.flushes

module _ {W : Type 0} (v : Setup W) (requests : ℕ → HttpRequest) {n : ℕ} (i : ℕ) (bound : i < n)
    (s : System W) where
  -- a run in which only the goroutine of the request `i` moves
  abbrev MovesTo : Pc → Store W → Type 0
  MovesTo q t =
      (u : System W) × Run v requests n s u
      × (u.pc i ≡ q)
      × (u.store ≡ t)
      × ((j : ℕ) → j ≢ i → u.pc j ≡ s.pc j)

  Moves-MovesTo : (q : Pc) (t : Store W) → Moves v (requests i) (s.pc i) s.store q t → MovesTo q t
  unfolding advance
  Moves-MovesTo q t rest = (s, stay, refl, refl, λ j h. refl)
  Moves-MovesTo q' t' (go {q} {t} mv h) =
      let (u, run, e, f, others) = Moves-MovesTo q t mv in
      (
        advance v requests i u,
        later run (pick i bound (rw e h)),
        rw (eqb_self i, e, f) refl,
        rw (e, f) refl,
        λ j other. rw (not_eqb j other) (others j other),
      )
    where
      not_eqb : (j : ℕ) → j ≢ i → eqb i j ≡ false
      not_eqb j other = elim (Bool-cases (eqb i j)) [
        | inl same ↦ absurd (other (sym (eqb→eq i j same)))
        | inr apart ↦ apart
      ]

  -- Whatever the requests have done since the server's start: a request that has just arrived can
  -- run to its reply before another one moves. Then its reply is the one of `handle_messages`, for
  -- a server that has the conversations and the world of that moment, and after it the
  -- conversations and the world are those that `handle_messages` leaves; the other requests stand
  -- where they stood.
  pub Run-eq-handle_messages :
      (objects : ℕ → Live) (w : W) (m : Server W)
      → Run v requests n (init objects w) s
      → s.pc i ≡ arrived
      → Models s.store m
      → (u : System W) × Run v requests n s u
        × (u.pc i ≡ replied (handled v (requests i) m).0)
        × Models u.store (handled v (requests i) m).1
        × ((j : ℕ) → j ≢ i → u.pc j ≡ s.pc j)
  unfolding handle_messages
  Run-eq-handle_messages objects w m r here models =
      let inv = Run-Inv requests v (init objects w) s (init-Inv requests v objects w) r in
      let proper : IsProper s.store = record {
        allocated = inv.allocated;
        distinct = inv.distinct;
      } in
      let start_here : Moves v (requests i) (s.pc i) s.store arrived s.store =
        subst (λ p. Moves v (requests i) (s.pc i) s.store p s.store) here rest in
      let (t, mv, after) =
        checked_end v (requests i) (s.pc i) s.store (read_request v.host v.api_key (requests i))
          s.store m refl proper models start_here in
      let (u, run, replied_there, store, others) =
        Moves-MovesTo (replied (handled v (requests i) m).0) t mv in
      (u, run, replied_there, rw store after, others)
