-- ===== src/Api/Concurrent/Runs.antt =====
-- The requests of the server of internal/api/server.go, interleaved.
use perplexity_proxy_go.Prelude.{ℕ, suc, ◌<◌, false, ◌≡◌, [], eqb, if◌then◌else◌}
use perplexity_proxy_go.Api.Request.{HttpRequest}
use perplexity_proxy_go.Api.Server.{Live}
use perplexity_proxy_go.Api.Concurrent.{Store, Pc, arrived, is_done, Setup, move}

-- the shared state, and where the goroutine of each request stands
pub record System (W : Type 0) : Type 0 where
  pub store : Store W
  pub pc : ℕ → Pc

abbrev pub update : (ℕ → Pc) → ℕ → Pc → ℕ → Pc
update pc i p j = if eqb i j then p else pc j

-- No conversation yet, and every request has just arrived.
abbrev pub init : {W : Type 0} → (ℕ → Live) → W → System W
init objects w = record {
  store = record { convs = []; objects = objects; next = 0; world = w };
  pc = λ _. arrived;
}

module _ {W : Type 0} (v : Setup W) (requests : ℕ → HttpRequest) where
  -- The goroutine of one request takes its next step.
  unfoldable pub advance : ℕ → System W → System W
  unfolding move
  advance i s =
      let (p, store) = move v (requests i) (s.pc i) s.store in
      record { store = store; pc = update s.pc i p }

  -- Any of the first `n` requests that has no reply yet may go on.
  pub data Step (n : ℕ) (s : System W) : System W → Type 0 where
    pick : (i : ℕ) → i < n → is_done (s.pc i) ≡ false → Step n s (advance i s)

  -- any number of steps
  pub data Run (n : ℕ) (s : System W) : System W → Type 0 where
    stay : Run n s s
    later : {t u : System W} → Run n s t → Step n t u → Run n s u

  abbrev pub steps : {n : ℕ} {s t : System W} → Run n s t → ℕ
  steps stay = 0
  steps (later r st) = suc (steps r)
