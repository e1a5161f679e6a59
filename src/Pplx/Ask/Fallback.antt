-- ===== src/Pplx/Ask/Fallback.antt =====
-- When an ask goes to the bridge, and what a failed ask leaves behind.
use perplexity_proxy_go.Prelude.{
  Bool, true, false, ◌||◌, ◌≡◌, refl, sym, ap, ◌∙◌, List, [], ◌∷◌, none, some, Option, String,
  contains, contains-append_left, contains-append_right, ◌⧺◌, arith,
}
use perplexity_proxy_go.Errors.{
  Failure, plain, wrapped, sentinel, clarifying, status, rate_limited, authwalled, is, message,
  Result, ok, err,
}
use perplexity_proxy_go.Transport.Client.{Client, Host}
use perplexity_proxy_go.Pplx.Sse.{State}
use perplexity_proxy_go.Pplx.Conversation.{AskOptions, Conversation}
use perplexity_proxy_go.Pplx.Ask.{
  bridge_worthy, contains_any, finish_stream, searched, run_ask, ask_direct, ask, signatures,
}
use perplexity_proxy_go.Pplx.Bridge.{Bridge, bridge_enabled, bridge_auto, ask_via_bridge}

contains_any-append :
    (before text after : String) (sigs : List String)
    → contains_any text sigs ≡ true
    → contains_any (before ⧺ text ⧺ after) sigs ≡ true
contains_any-append before text after [] h = h
contains_any-append before text after (sig ∷ sigs) h = ground (
  arith,
  contains_any-append before text after sigs,
  contains-append_left before text sig,
  contains-append_right (before ⧺ text) after sig,
)

abbrev is_refusal : Failure → Bool
is_refusal e = is rate_limited e || is authwalled e

-- Wrapping an error never hides it from the bridge.
bridge_worthy-wrapped :
    (before : String) (e : Failure) (after : String)
    → bridge_worthy e ≡ true
    → bridge_worthy (wrapped before e after) ≡ true
unfolding bridge_worthy message
bridge_worthy-wrapped before e after h = contains_any-append before (message e) after signatures h

bridge_worthy_of_is_refusal : (e : Failure) → is_refusal e ≡ true → bridge_worthy e ≡ true
bridge_worthy_of_is_refusal (plain s) h = cc
bridge_worthy_of_is_refusal (wrapped before e after) h =
    bridge_worthy-wrapped before e after (bridge_worthy_of_is_refusal e h)
bridge_worthy_of_is_refusal (sentinel rate_limited) h =
    unfold bridge_worthy message contains in refl
bridge_worthy_of_is_refusal (sentinel authwalled) h = unfold bridge_worthy message contains in refl
bridge_worthy_of_is_refusal (sentinel s) h = cc
bridge_worthy_of_is_refusal (clarifying qs) h = cc
bridge_worthy_of_is_refusal (status c u b) h = cc

-- A failed ask leaves the thread as it was.
finish_stream-err :
    (r : State × Option Failure) (c : Conversation) (e : Failure)
    → (finish_stream r c).0 ≡ err e
    → (finish_stream r c).1 ≡ c
unfolding finish_stream
finish_stream-err (s, some f) c e h = refl
finish_stream-err (s, none) c e h = ground arith

searched-err :
    {W : Type 0} (host : Host) (client : Client W) (r : Result (Unit {0}) × W)
    (post : W → (State × Option Failure) × W) (c : Conversation) (e : Failure)
    → (searched host client r post c).1 ≡ err e
    → (searched host client r post c).2 ≡ c
searched-err host client (err f, w) post c e h = refl
searched-err host client (ok _, w) post c e h = finish_stream-err (post w).0 c e h

module _ {W : Type 0} (host : Host) (client : Client W) where
  -- Every error of a direct ask, an authwall included, leaves the conversation as it was, so that a
  -- retry or the next question does not follow up on a junk thread.
  pub ask_direct-err :
      (query : String) (opt : AskOptions) (c c' : Conversation) (w w' : W) (e : Failure)
      → ask_direct host client query opt c w ≡ (err e, c', w')
      → c' ≡ c
  unfolding ask_direct run_ask
  ask_direct-err query opt c c' w w' e h =
      sym (ap (λ r. r.1) h) ∙ searched-err host client _ _ c e (ap (λ r. r.0) h)

module _ {W : Type 0} (host : Host) (client : Client W) (bridge : Bridge W) where
  -- With the bridge on standby, a rate limit or an authwall of the direct ask, however wrapped, is
  -- answered by the bridge, in the same conversation as before the ask.
  pub ask-bridges :
      (query : String) (opt : AskOptions) (c c' : Conversation) (w w' : W) (e : Failure)
      → bridge_enabled host ≡ false
      → bridge_auto host ≡ true
      → ask_direct host client query opt c w ≡ (err e, c', w')
      → (is rate_limited e || is authwalled e) ≡ true
      → ask host client bridge query opt c w ≡ ask_via_bridge host bridge query opt c w'
  unfolding ask
  ask-bridges query opt c c' w w' e off standby h refused =
      rw
        (
          off,
          h,
          standby,
          bridge_worthy_of_is_refusal e refused,
          ask_direct-err host client query opt c c' w w' e h,
        )
        refl
