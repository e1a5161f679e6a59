-- ===== src/Cli/Sync/Command/Declined.antt =====
-- A run of `cmdSpecSync` of cmd/pplx/commands_spec.go to which the user does not agree.
use perplexity_proxy_go.Prelude.{
  ◌≡◌, ◌≢◌, refl, ◌∙◌, List, [], ◌∷◌, Option, none, some, String, true, false, Bool, ◌||◌, ◌==◌,
  eqb, ℕ, Bool-cases, inl, inr,
}
use perplexity_proxy_go.Errors.{Failure, Result, ok, err}
use perplexity_proxy_go.Spec.Decode.{Spec}
use perplexity_proxy_go.Cli.Shell.{Shell, Flags, prompt, trimmed, spec_load}
use perplexity_proxy_go.Cli.Sync.Upstream.{UpstreamPatch, parse_upstream}
use perplexity_proxy_go.Cli.Sync.Drift.{SpecChange, diff_patch}
use perplexity_proxy_go.Cli.Sync.Command.{
  fetched, report, decided, drifted, compared, embedded_of, with_models, with_constants, sync_with,
  fetch_upstream, constants_url, models_url, cmd_spec_sync,
}

module _ {W : Type 0} (sh : Shell W) (path : String) where
  -- the file at the path is in the second world what it was in the first
  abbrev pub IsKept : W → W → Type 0
  IsKept w w' = sh.disk.read path w' ≡ sh.disk.read path w

  -- an answer that `cmdSpecSync` does not take for a yes
  abbrev pub IsRefusal : Result String → Type 0
  IsRefusal (err e) = Unit
  IsRefusal (ok answer) = (sh.equal_fold answer "y" || sh.equal_fold answer "yes") ≡ false

  trimmed-IsKept : (r : (String × Option Failure) × W) → IsKept r.1 (trimmed sh r).1
  trimmed-IsKept ((line, none), w) = refl
  trimmed-IsKept ((line, some e), w) = elim (Bool-cases (line == "")) [
    | inl empty ↦ rw empty refl
    | inr full ↦ rw full refl
  ]

  fetched-IsKept :
      (url : String) (r : Result (ℕ × (ℕ → Result String)) × W) → IsKept r.1 (fetched sh url r).1
  fetched-IsKept url (err e, w) = refl
  fetched-IsKept url (ok (status, body), w) = elim (Bool-cases (eqb status 200)) [
    | inl good ↦ rw good refl
    | inr bad ↦ rw bad refl
  ]

  module _ (says : (text : String) (w : W) → IsKept w (sh.say text w))
      (reads : (w : W) → IsKept w (sh.read_line w).1)
      (fetches : (url : String) (w : W) → IsKept w (sh.http_get url w).1)
      (refuses : (label : String) (w : W) → IsRefusal (prompt sh label w).0) where
    prompt-IsKept : (label : String) (w : W) → IsKept w (prompt sh label w).1
    unfolding prompt
    prompt-IsKept label w =
        trimmed-IsKept (sh.read_line (sh.say label w)) ∙ reads (sh.say label w) ∙ says label w

    fetch_upstream-IsKept : (url : String) (w : W) → IsKept w (fetch_upstream sh url w).1
    unfolding fetch_upstream
    fetch_upstream-IsKept url w = fetched-IsKept url (sh.http_get url w) ∙ fetches url w

    decided-IsKept :
        (p : UpstreamPatch) (cs : List SpecChange) (r : Result String × W)
        → IsRefusal r.0
        → IsKept r.1 (decided sh p cs r).1
    decided-IsKept p cs (err e, w) refused = refl
    decided-IsKept p cs (ok answer, w) refused = rw refused (says _ w)

    drifted-IsKept :
        (base : Spec) (p : UpstreamPatch) (cs : List SpecChange) (w : W)
        → IsKept w (drifted sh false base p cs w).1
    drifted-IsKept base p [] w = says _ w
    drifted-IsKept base p (c ∷ cs) w =
        decided-IsKept p (c ∷ cs) (prompt sh _ (sh.say (report sh base p (c ∷ cs)) w))
          (refuses _ (sh.say (report sh base p (c ∷ cs)) w))
        ∙ prompt-IsKept _ (sh.say (report sh base p (c ∷ cs)) w)
        ∙ says _ w

    compared-IsKept :
        (constants models : String) (r : Result Spec) (w : W)
        → IsKept w (compared sh false constants models r w).1
    compared-IsKept constants models (err e) w = refl
    compared-IsKept constants models (ok base) w =
        drifted-IsKept base (parse_upstream constants models)
          (diff_patch base (parse_upstream constants models)) w

    with_models-IsKept :
        (constants : String) (r : Result String × W)
        → IsKept r.1 (with_models sh false constants r).1
    with_models-IsKept constants (err e, w) = refl
    with_models-IsKept constants (ok models, w) =
        compared-IsKept constants models (embedded_of sh (spec_load sh w)) w

    with_constants-IsKept : (r : Result String × W) → IsKept r.1 (with_constants sh false r).1
    with_constants-IsKept (err e, w) = refl
    with_constants-IsKept (ok constants, w) =
        with_models-IsKept constants (fetch_upstream sh models_url w)
        ∙ fetch_upstream-IsKept models_url w

    sync_with-IsKept :
        (agreed : Result Bool) (w : W) → agreed ≢ ok true → IsKept w (sync_with sh agreed w).1
    sync_with-IsKept (err e) w asks = refl
    sync_with-IsKept (ok true) w asks = absurd (asks refl)
    sync_with-IsKept (ok false) w asks =
        with_constants-IsKept (fetch_upstream sh constants_url w)
        ∙ fetch_upstream-IsKept constants_url w

    -- `pplx spec sync` without --yes, where no answer at the prompt is "y" or "yes" in any letter
    -- case, and neither printing, reading a line nor fetching changes the file at the path: the run
    -- leaves that file as it was, the overrides included, however it ends and whatever upstream
    -- sends.
    pub cmd_spec_sync-IsKept :
        (flags : Flags) (args : List String) (w : W)
        → flags.sync args ≢ ok true
        → IsKept w (cmd_spec_sync sh flags args w).1
    unfolding cmd_spec_sync
    cmd_spec_sync-IsKept flags args w asks = sync_with-IsKept (flags.sync args) w asks
