-- ===== src/Pplx/Ask/Followup.antt =====
-- What the next request of a conversation carries.
use perplexity_proxy_go.Prelude.{
  false, ◌≡◌, sym, ap, ◌∙◌, Option, none, some, String, ◌==◌, if◌then◌else◌, arith,
}
use perplexity_proxy_go.Errors.{Failure, Result, ok, err}
use perplexity_proxy_go.Json.{Value, str, at}
use perplexity_proxy_go.Transport.Client.{Client, Host}
use perplexity_proxy_go.Pplx.Sse.{State, start}
use perplexity_proxy_go.Pplx.Conversation.{
  AskOptions, Answer, Conversation, params, build_payload, search_path,
}
use perplexity_proxy_go.Pplx.Ask.{on_line, finish_stream, searched, run_ask, ask_direct}

abbrev pub unless_empty : String → Option Value
unless_empty s = if s == "" then none else some (str s)

pub params-uuid :
    (host : Host) (opt : AskOptions) (c : Conversation)
    → at "last_backend_uuid" (params host opt c) ≡ unless_empty c.backend_uuid
unfolding params
params-uuid host opt c = ground arith

params-token :
    (host : Host) (opt : AskOptions) (c : Conversation)
    → at "read_write_token" (params host opt c)
      ≡ (if c.backend_uuid == "" then none else unless_empty c.read_write_token)
unfolding params
params-token host opt c = ground arith

-- what the stream said, if it said something, else what was there before
abbrev pub newer : String → String → String
newer said before = if said == "" then before else said

-- what an answered ask makes of the identity of the thread, with the state at the end of the stream
abbrev IsAdopted : State → Conversation → Result Answer × Conversation → Type 0
IsAdopted s c (r, c') =
    (c'.backend_uuid ≡ newer s.backend_uuid c.backend_uuid)
    × (c'.read_write_token ≡ newer s.read_write_token c.read_write_token)

finish_stream-IsAdopted :
    (r : State × Option Failure) (c : Conversation) (a : Answer)
    → (finish_stream r c).0 ≡ ok a
    → IsAdopted r.0 c (finish_stream r c)
unfolding finish_stream
finish_stream-IsAdopted (s, some f) c a h = absurd cc
finish_stream-IsAdopted (s, none) c a h = ground arith

searched-IsAdopted :
    {W : Type 0} (host : Host) (client : Client W) (r : Result (Unit {0}) × W)
    (post : W → (State × Option Failure) × W) (c : Conversation) (a : Answer)
    → (searched host client r post c).1 ≡ ok a
    → IsAdopted (post r.1).0.0 c (ok a, (searched host client r post c).2)
searched-IsAdopted host client (err f, w) post c a h = absurd cc
searched-IsAdopted host client (ok _, w) post c a h = finish_stream-IsAdopted (post w).0 c a h

module _ {W : Type 0} (host : Host) (client : Client W) where
  -- the state at the end of the stream of an ask, after the search
  abbrev pub stream_state : String → AskOptions → Conversation → W → State
  stream_state query opt c w =
      let (r, w') =
        client.post_sse State (on_line host.codec) c.sp.endpoints.ask
          (build_payload host query opt c) (start false)
          (client.get (search_path host query c) w).1 in
      r.0

  -- After an answer, the next request of the conversation names in last_backend_uuid the thread that
  -- the frames of the answer's stream named, or the one of before if they named none; it names none
  -- only if there is neither. It sends a token only together with a thread: the one of the frames, or
  -- that of before.
  pub ask_direct-followup :
      (query : String) (opt next : AskOptions) (c c' : Conversation) (w w' : W) (a : Answer)
      → ask_direct host client query opt c w ≡ (ok a, c', w')
      → (at "last_backend_uuid" (params host next c')
          ≡ unless_empty (newer (stream_state query opt c w).backend_uuid c.backend_uuid))
        × (at "read_write_token" (params host next c') ≡ (
            if newer (stream_state query opt c w).backend_uuid c.backend_uuid == ""
            then none
            else unless_empty
                (newer (stream_state query opt c w).read_write_token c.read_write_token)))
  unfolding ask_direct run_ask
  ask_direct-followup query opt next c c' w w' a h =
      let (uuid, token) = searched-IsAdopted host client _ _ c a (ap (λ r. r.0) h) in
      let same = ap (λ r. r.1) (sym h) in
      let to_uuid = ap (λ v. v.backend_uuid) same ∙ uuid in
      let to_token = ap (λ v. v.read_write_token) same ∙ token in
      (
        params-uuid host next c' ∙ ap unless_empty to_uuid,
        params-token host next c'
            ∙ ap (λ u. if u == "" then none else unless_empty c'.read_write_token) to_uuid
            ∙ ap
                (λ k.
                  if newer (stream_state query opt c w).backend_uuid c.backend_uuid == ""
                  then none
                  else unless_empty k)
                to_token,
      )
