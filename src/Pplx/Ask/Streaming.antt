-- ===== src/Pplx/Ask/Streaming.antt =====
-- A streamed ask is the plain ask, with the deltas beside it.
use perplexity_proxy_go.Prelude.{
  Bool, true, false, ◌≡◌, refl, sym, List, [], ◌∷◌, Option, none, some, String, Bytes,
}
use perplexity_proxy_go.Errors.{Failure, Result, ok, err}
use perplexity_proxy_go.Json.{Value, Codec, Fields}
use perplexity_proxy_go.Transport.Client.{Client, Host}
use perplexity_proxy_go.Transport.Sse.{SseContract, run_lines, settle}
use perplexity_proxy_go.Pplx.Sse.{State, start, process_frame, on_line}
use perplexity_proxy_go.Pplx.Frame.{sse_data}
use perplexity_proxy_go.Pplx.Sse.Frames.{erase, erase_result, process_data-erase}
use perplexity_proxy_go.Pplx.Conversation.{
  AskOptions, Answer, Conversation, search_path, build_payload,
}
use perplexity_proxy_go.Pplx.Ask.{finish_stream, searched, run_ask, ask_direct, ask_stream}

on_line-erase :
    (codec : Codec) (s : State) (line : Bytes)
    → on_line codec (erase s) line ≡ erase_result (on_line codec s line)
unfolding on_line
on_line-erase codec s line = by_frame (sse_data codec line)
  where
    by_frame :
        (o : Option Fields)
        → process_frame codec o (erase s) ≡ erase_result (process_frame codec o s)
    by_frame none = refl
    by_frame (some d) = process_data-erase codec d s

settle-erase :
    (r : State × Option Failure) (k : State → State × Option Failure)
    → ((s : State) → k (erase s) ≡ erase_result (k s))
    → settle (erase_result r) k ≡ erase_result (settle r k)
settle-erase (s, some e) k h = refl
settle-erase (s, none) k h = h s

run_lines-erase :
    (codec : Codec) (lines : List Bytes) (ending : Option Failure) (s : State)
    → run_lines (on_line codec) (erase s) lines ending
      ≡ erase_result (run_lines (on_line codec) s lines ending)
unfolding run_lines
run_lines-erase codec [] ending s = refl
run_lines-erase codec (l ∷ lines) ending s = rw (on_line-erase codec s l) (
    settle-erase (on_line codec s l) (λ s'. run_lines (on_line codec) s' lines ending)
      (λ s'. run_lines-erase codec lines ending s'))

finish_stream-erase :
    (r : State × Option Failure) (c : Conversation)
    → finish_stream (erase_result r) c ≡ finish_stream r c
unfolding finish_stream
finish_stream-erase (s, some e) c = refl
finish_stream-erase (s, none) c = refl

abbrev outcome :
    {W : Type 0} → State × Result Answer × Conversation × W → Result Answer × Conversation × W
outcome (s, a, c, w) = (a, c, w)

searched-outcome :
    {W : Type 0} (host : Host) (client : Client W) (r : Result (Unit {0}) × W)
    (p q : W → (State × Option Failure) × W) (c : Conversation)
    → ((w : W) → finish_stream (p w).0 c ≡ finish_stream (q w).0 c)
    → ((w : W) → (p w).1 ≡ (q w).1)
    → outcome (searched host client r p c) ≡ outcome (searched host client r q c)
searched-outcome host client (err e, w) p q c h k = refl
searched-outcome host client (ok _, w) p q c h k = cc (h w, k w)

module _ {W : Type 0} (host : Host) (client : Client W) (contract : SseContract client) where
  same_end :
      (path : String) (body : Value) (c : Conversation) (w : W)
      → finish_stream (client.post_sse State (on_line host.codec) path body (start true) w).0 c
        ≡ finish_stream (client.post_sse State (on_line host.codec) path body (start false) w).0 c
  same_end path body c w =
      let r = contract.response path body w in
      rw
        (
          contract.delivers State (on_line host.codec) path body (start true) w,
          contract.delivers State (on_line host.codec) path body (start false) w,
          run_lines-erase host.codec r.lines r.ending (start true),
        )
        (sym (finish_stream-erase _ c))

  same_world :
      (path : String) (body : Value) (w : W)
      → (client.post_sse State (on_line host.codec) path body (start true) w).1
        ≡ (client.post_sse State (on_line host.codec) path body (start false) w).1
  same_world path body w =
      rw
        (
          contract.delivers State (on_line host.codec) path body (start true) w,
          contract.delivers State (on_line host.codec) path body (start false) w,
        )
        refl

  -- Streaming changes nothing but that the deltas are seen: with a transport that keeps the
  -- contract of PostSSE, AskStream gives the answer or error, the conversation and the world that
  -- the direct ask gives, with a callback or without one.
  pub ask_stream-eq-ask_direct :
      (on_chunk : Bool) (query : String) (opt : AskOptions) (c : Conversation) (w : W)
      → (let (ds, a, c', w') = ask_stream host client on_chunk query opt c w in (a, c', w'))
        ≡ ask_direct host client query opt c w
  unfolding ask_stream ask_direct run_ask
  ask_stream-eq-ask_direct true query opt c w =
      searched-outcome host client (client.get (search_path host query c) w) _ _ c
        (same_end c.sp.endpoints.ask (build_payload host query opt c) c)
        (same_world c.sp.endpoints.ask (build_payload host query opt c))
  ask_stream-eq-ask_direct false query opt c w = refl
