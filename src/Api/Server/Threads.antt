-- ===== src/Api/Server/Threads.antt =====
-- The conversations that the server keeps.
use perplexity_proxy_go.Prelude.{
  ℕ, Bool, true, ◌≡◌, ◌≢◌, refl, ◌∙◌, String, lookup, insert, lookup-insert, Bool-cases, inl, inr,
  arith, some, eq_iff, eq_refl,
}
use perplexity_proxy_go.Errors.{Result, ok, err}
use perplexity_proxy_go.Spec.Decode.{Spec}
use perplexity_proxy_go.Transport.Client.{Client, Host}
use perplexity_proxy_go.Pplx.Conversation.{or_else, AskOptions, Conversation, new_conversation}
use perplexity_proxy_go.Pplx.Ask.{ask, ask_stream}
use perplexity_proxy_go.Pplx.Bridge.{Bridge}
use perplexity_proxy_go.Api.Request.{
  HttpRequest, MessagesRequest, Checked, passed, refused, read_request,
}
use perplexity_proxy_go.Api.Server.{
  Server, Live, found_or, conversation, put_back, serve, serve_json, serve_stream, handle_messages,
  made, checked,
}

-- the thread that a request belongs to
abbrev pub thread : HttpRequest → String
thread r = or_else (r.header "x-pplx-conversation") "default"

-- What a call in the thread `id` may do to the threads: the others stay as they are, and one that
-- was there keeps the transport that it was made with.
abbrev pub Keeps : {W : Type 0} → String → Server W → Server W → Type 0
Keeps id s s' =
    ((j : String) → j ≢ id → lookup j s'.convs ≡ lookup j s.convs)
    × ((l : Live)
        → lookup id s.convs ≡ some l
        → (l' : Live) × (lookup id s'.convs ≡ some l') × (l'.t ≡ l.t))

module _ {W : Type 0} where
  Keeps-same : (id : String) (s : Server W) (w : W) → Keeps id s (record s { world = w })
  Keeps-same id s w = (λ j h. refl, λ l h. (l, h, refl))

  conversation-Keeps :
      (id : String) (t : ℕ) (sp : Spec) (s : Server W) → Keeps id s (conversation id t sp s).1
  unfolding conversation
  conversation-Keeps id t sp s = (
    λ j h. ground (
      arith,
      lookup-insert id j
          (found_or (lookup id s.convs) (record { t = t; conv = new_conversation sp })) s.convs,
      eq_iff id j,
    ),
    λ l h. rw (h, lookup-insert id id l s.convs, eq_refl id) (l, refl, refl),
  )

  put_back-Keeps :
      (id : String) (t : ℕ) (sp : Spec) (s : Server W) (c : Conversation) (w : W)
      → Keeps id s (put_back id (conversation id t sp s).0 c w (conversation id t sp s).1)
  unfolding conversation
  put_back-Keeps id t sp s c w =
      let l = found_or (lookup id s.convs) (record { t = t; conv = new_conversation sp }) in
      let l' : Live = record l { conv = c } in
      (
        λ j h. ground (
          arith,
          lookup-insert id j l s.convs,
          lookup-insert id j l' (insert id l s.convs),
          eq_iff id j,
        ),
        λ k h. (l', lookup-insert id id l' (insert id l s.convs) ∙ rw (eq_refl id) refl, rw h refl),
      )

module _ {W : Type 0} (host : Host) (clients : ℕ → Client W) (bridge : Bridge W) where
  serve-Keeps :
      (flushes : Bool) (r : HttpRequest) (req : MessagesRequest) (query : String) (t : ℕ)
      (sp : Spec) (s : Server W)
      → Keeps (thread r) s (serve host clients bridge flushes r req query t sp s).1
  unfolding serve serve_stream serve_json conversation
  serve-Keeps flushes r req query t sp s =
      let l = (conversation (thread r) t sp s).0 in
      let opt : AskOptions = record { model = req.model; source_focus = "" } in
      let streamed = (ask_stream host (clients l.t) true query opt l.conv s.world) in
      let answered = (ask host (clients l.t) bridge query opt l.conv s.world) in
      elim (Bool-cases req.stream) [
        | inl streams ↦ elim (Bool-cases flushes) [
          | inl flushing ↦
              rw (streams, flushing) (put_back-Keeps (thread r) t sp s streamed.2 streamed.3)
          | inr unable ↦ rw (streams, unable) (conversation-Keeps (thread r) t sp s)
        ]
        | inr json ↦ rw json (put_back-Keeps (thread r) t sp s answered.1 answered.2)
      ]

  module _ (factory : W → Result (ℕ × Spec) × W) (api_key : String) where
    made-Keeps :
        (flushes : Bool) (r : HttpRequest) (req : MessagesRequest) (query : String)
        (m : Result (ℕ × Spec) × W) (s : Server W)
        → Keeps (thread r) s (made host clients bridge factory api_key flushes r req query m s).1
    made-Keeps flushes r req query (err e, w) s = Keeps-same (thread r) s w
    made-Keeps flushes r req query (ok (t, sp), w) s =
        serve-Keeps flushes r req query t sp (record s { world = w })

    checked-Keeps :
        (flushes : Bool) (r : HttpRequest) (c : Checked (MessagesRequest × String)) (s : Server W)
        → Keeps (thread r) s (checked host clients bridge factory api_key flushes r c s).1
    checked-Keeps flushes r (refused status type msg) s = Keeps-same (thread r) s s.world
    checked-Keeps flushes r (passed (req, query)) s =
        made-Keeps flushes r req query (factory s.world) s

    handle_messages-Keeps :
        (flushes : Bool) (r : HttpRequest) (s : Server W)
        → Keeps (thread r) s (handle_messages host clients bridge factory api_key flushes r s).1
    unfolding handle_messages
    handle_messages-Keeps flushes r s = checked-Keeps flushes r (read_request host api_key r) s

    -- Whatever a request is and however it ends, the conversations of other threads than its own
    -- stay as they are.
    pub handle_messages-others :
        (flushes : Bool) (r : HttpRequest) (s : Server W) (id : String)
        → id ≢ thread r
        → lookup id (handle_messages host clients bridge factory api_key flushes r s).1.convs
          ≡ lookup id s.convs
    handle_messages-others flushes r s id other = (handle_messages-Keeps flushes r s).0 id other

    -- Whatever a request is and however it ends, its thread, where it was there before, is there
    -- after it, with the transport that it was made with.
    pub handle_messages-same_transport :
        (flushes : Bool) (r : HttpRequest) (s : Server W) (l : Live)
        → lookup (thread r) s.convs ≡ some l
        → (l' : Live) × (lookup
              (thread r)
              (handle_messages host clients bridge factory api_key flushes r s).1.convs
            ≡ some l')
          × (l'.t ≡ l.t)
    handle_messages-same_transport flushes r s l there =
        (handle_messages-Keeps flushes r s).1 l there
