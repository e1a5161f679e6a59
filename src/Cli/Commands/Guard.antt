-- ===== src/Cli/Commands/Guard.antt =====
-- What the commands of cmd/pplx/commands.go do without a stored token.
use perplexity_proxy_go.Prelude.{
  ◌≡◌, ◌⊎◌, ◌∙◌, refl, List, [], ◌∷◌, Option, none, some, String, ◌==◌, ◌≢◌, Bool-cases, inl, inr,
}
use perplexity_proxy_go.Errors.{Failure, Result, ok, err}
use perplexity_proxy_go.Spec.Decode.{Spec}
use perplexity_proxy_go.Cli.Shell.{
  Shell, Done, AskFlags, Flags, load_spec, load_token, session, with_spec,
}
use perplexity_proxy_go.Cli.Commands.{
  told, no_flags, second_pass, asked, parsed, cmd_ask, cmd_usage,
}

-- A command that ended in an error and has left the world as it was.
abbrev pub IsRefused : {W A : Type 0} → W → Result A × W → Type 0
IsRefused {A = A} w (r, w') = ((a : A) → r ≢ ok a) × (w' ≡ w)

pub err-ne_ok : {A : Type 0} (e : Failure) (a : A) → ◌≡◌ {A = Result A} (err e) (ok a) → ⊥
err-ne_ok e a h = cc

refused : {W A : Type 0} (e : Failure) (w : W) → IsRefused {A = A} w (err e, w)
refused e w = (λ a. err-ne_ok e a, refl)

module _ {W : Type 0} (sh : Shell W) where
  with_spec_no_token :
      (r : Result Spec) (w : W) (e : Failure)
      → load_token sh w ≡ err e
      → (e' : Failure) × (with_spec sh r w ≡ (err e', w))
  with_spec_no_token (err e') w e h = (e', refl)
  with_spec_no_token (ok sp) w e h = (e, rw h refl)

  session_no_token :
      (w : W) (e : Failure)
      → load_token sh w ≡ err e
      → (e' : Failure) × (session sh w ≡ (err e', w))
  unfolding session
  session_no_token w e h = with_spec_no_token (load_spec sh w) w e h

  module _ (flags : Flags) where
    -- A command that ended in an error, and has written to stderr what package flag writes, at most.
    abbrev pub IsComplaint : W → Done W → Type 0
    IsComplaint w (r, w') =
        ((a : Unit {0}) → r ≢ ok a)
        × (((args : List String) × (w' ≡ told sh flags (flags.complaint "ask" args) w)) ⊎ (w' ≡ w))

    complained :
        (e : Failure) (args : List String) (w : W)
        → IsComplaint w (err e, told sh flags (flags.complaint "ask" args) w)
    complained e args w = (λ a. err-ne_ok e a, inl (args, refl))

    silent : (w : W) (d : Done W) → IsRefused w d → IsComplaint w d
    silent w (r, w') (fails, same) = (fails, inr same)

    asked_no_token :
        (q : (AskFlags × String) × W) (e : Failure)
        → load_token sh q.1 ≡ err e
        → IsRefused q.1 (asked sh flags q)
    asked_no_token ((f, query), w) e h =
        let (e', s) = session_no_token w e h in
        elim (Bool-cases (query == "")) [
          | inl empty ↦ rw empty (refused _ w)
          | inr given ↦ rw (given, s) (refused e' w)
        ]

    usage_no_token :
        (args : List String) (w : W) (e : Failure)
        → load_token sh w ≡ err e
        → IsRefused w (cmd_usage sh flags args w)
    unfolding cmd_usage
    usage_no_token [] w e h = let (e', s) = session_no_token w e h in rw s (refused e' w)
    usage_no_token (arg ∷ args) w e h = refused _ w

    module _
        (quiet : (text : String) (w : W) → load_token sh (sh.warn text w) ≡ load_token sh w) where
      load_token-told :
          (text : String) (w : W) → load_token sh (told sh flags text w) ≡ load_token sh w
      load_token-told text w = elim (Bool-cases (text == "")) [
        | inl empty ↦ rw empty refl
        | inr given ↦ rw given (quiet text w)
      ]

      second_no_token :
          (f : AskFlags) (rest : List String) (w : W) (e : Failure)
          → load_token sh w ≡ err e
          → IsComplaint w (asked sh flags (second_pass sh flags f rest w))
      second_no_token f [] w e h = silent w _ (asked_no_token ((f, ""), w) e h)
      second_no_token f (query ∷ []) w e h = silent w _ (asked_no_token ((f, query), w) e h)
      second_no_token f (query ∷ arg ∷ args) w e h =
          let (fails, same) =
            asked_no_token (second_pass sh flags f (query ∷ arg ∷ args) w) e
              (load_token-told (flags.complaint "ask" (arg ∷ args)) w ∙ h) in
          (fails, inl (arg ∷ args, same))

      parsed_no_token :
          (args : List String) (p : AskFlags × List String × Option Failure) (w : W) (e : Failure)
          → load_token sh w ≡ err e
          → IsComplaint w (parsed sh flags args p w)
      parsed_no_token args (f, rest, some e') w e h = complained e' args w
      parsed_no_token args (f, rest, none) w e h = second_no_token f rest w e h

      -- Without a token that can be loaded, where writing to stderr does not change that, `pplx ask` and
      -- `pplx usage` end in an error whatever their arguments are, and so does the making of a session
      -- for a server. They leave the world as it was, so that no transport is made, nothing is sent and
      -- nothing is printed, but for what package flag writes to stderr on the arguments of `pplx ask`.
      pub session-IsRefused :
          (args : List String) (w : W) (e : Failure)
          → load_token sh w ≡ err e
          → IsComplaint w (cmd_ask sh flags args w)
            × IsRefused w (cmd_usage sh flags args w)
            × IsRefused w (session sh w)
      unfolding cmd_ask
      session-IsRefused args w e h =
          let (e', s) = session_no_token w e h in
          (
            parsed_no_token args (flags.ask (no_flags sh flags) args) w e h,
            usage_no_token args w e h,
            rw s (refused e' w),
          )
