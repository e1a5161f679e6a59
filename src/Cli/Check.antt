-- ===== src/Cli/Check.antt =====
-- `cmdSpecCheck` and `statusOf` of cmd/pplx/commands_spec.go.
use perplexity_proxy_go.Prelude.{
  ℕ, zero, suc, Bool, true, false, List, [], ◌∷◌, Option, none, some, String, ◌⧺◌, eqb,
  if◌then◌else◌, length,
}
use perplexity_proxy_go.Errors.{Failure, plain, as_status, decimal, message, Result, ok, err}
use perplexity_proxy_go.Json.{Value, num, str, obj, end, field}
use perplexity_proxy_go.Spec.Decode.{Spec}
use perplexity_proxy_go.Transport.Client.{Client}
use perplexity_proxy_go.Pplx.Conversation.{new_conversation}
use perplexity_proxy_go.Pplx.Ask.{ask}
use perplexity_proxy_go.Pplx.Usage.{usage}
use perplexity_proxy_go.Cli.Shell.{Shell, Done, Flags, load_spec, session}

-- `statusOf`
unfoldable pub status_of : Failure → String
unfolding decimal
status_of e = elim (as_status e) [ none ↦ "ERR" | some (code, url, body) ↦ "HTTP " ⧺ decimal code ]

-- the verb %-14s
abbrev pad : ℕ → String → String
pad zero s = s
pad (suc n) String.[] = " " ⧺ pad n ""
pad (suc n) (String.◌∷◌ c s) = String.◌∷◌ c (pad n s)

-- a line of the loop over the results, and what it adds to the count of failures
abbrev line : String × String × Option Failure → String
line (name, status, none) = "PASS " ⧺ pad 14 name ⧺ " " ⧺ status ⧺ "\n"
line (name, status, some e) = "FAIL " ⧺ pad 14 name ⧺ " " ⧺ status ⧺ ": " ⧺ message e ⧺ "\n"

abbrev lines : List (String × String × Option Failure) → String
lines [] = ""
lines (r ∷ rs) = line r ⧺ lines rs

unfoldable pub failures : List (String × String × Option Failure) → ℕ
failures [] = 0
failures ((name, status, none) ∷ rs) = failures rs
failures ((name, status, some e) ∷ rs) = suc (failures rs)

abbrev pub outcome : {A : Type 0} → String → Result A → String × String × Option Failure
outcome name (ok a) = (name, "200", none)
outcome name (err e) = (name, status_of e, some e)

abbrev list_query : Value
list_query =
    obj (field "limit" (num "1") (field "offset" (num "0") (field "search_term" (str "") end)))

module _ {W : Type 0} (sh : Shell W) where
  -- the three requests
  unfoldable pub smoke_test : Client W → Spec → W → List (String × String × Option Failure) × W
  unfolding usage ask
  smoke_test client sp w =
      let (limits, w1) = usage sh.order client sp w in
      let (answer, c, w2) =
        ask sh.host client sh.bridge "ping" (record { model = "auto"; source_focus = "" })
          (new_conversation sp) w1 in
      let (threads, w3) = client.post_json sp.endpoints.list_threads list_query w2 in
      (outcome "rate-limits" limits ∷ outcome "ask" answer ∷ outcome "thread-list" threads ∷ [], w3)

  abbrev pub conclude : List (String × String × Option Failure) × W → Done W
  conclude (rs, w) =
      if eqb (failures rs) 0 then (ok tt, sh.say "All endpoints OK.\n" (sh.say (lines rs) w)) else (
        err (plain (decimal (failures rs) ⧺ "/" ⧺ decimal (length rs) ⧺ " endpoints failed")),
        sh.say (lines rs) w,
      )

  abbrev tested : Result (ℕ × Spec) × W → Done W
  tested (err e, w) = (err e, w)
  tested (ok (t, sp), w) = conclude (smoke_test (sh.clients t) sp w)

  abbrev plan : Spec → String
  plan sp =
      "pplx spec check --live would test, in order:\n  1. GET  " ⧺ sp.endpoints.rate_limits
      ⧺ "   (rate limits)\n  2. POST " ⧺ sp.endpoints.ask ⧺ "   (ask, query \"ping\")\n  3. POST "
      ⧺ sp.endpoints.list_threads
      ⧺ "  (thread list)\nNo network calls made. Re-run with --live to smoke test.\n"

  abbrev planned : Result Spec → W → Done W
  planned (err e) w = (err e, w)
  planned (ok sp) w = (ok tt, sh.say (plan sp) w)

  abbrev check_with : Result Bool → W → Done W
  check_with (err e) w = (err e, w)
  check_with (ok false) w = planned (load_spec sh w) w
  check_with (ok true) w = tested (session sh w)

  -- `cmdSpecCheck`
  unfoldable pub cmd_spec_check : Flags → List String → W → Done W
  unfolding load_spec session smoke_test failures decimal
  cmd_spec_check flags args w = check_with (flags.check args) w
