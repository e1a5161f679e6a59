-- ===== src/Api/Concurrent/Followups.antt =====
-- What the other requests of a server see of a request.
use perplexity_proxy_go.Prelude.{
  ℕ, ◌<◌, ◌≡◌, ◌≢◌, refl, ap, ◌∙◌, some, String, ◌==◌, lookup, eq_iff, Bool-cases, inl, inr, arith,
}
use perplexity_proxy_go.Json.{str, obj, Fields, end, field, at}
use perplexity_proxy_go.Pplx.Conversation.{params, build_payload}
use perplexity_proxy_go.Pplx.Ask.Followup.{params-uuid, unless_empty}
use perplexity_proxy_go.Api.Request.{HttpRequest}
use perplexity_proxy_go.Api.Server.{Live}
use perplexity_proxy_go.Api.Server.Threads.{thread}
use perplexity_proxy_go.Api.Concurrent.{Store, asking, sending, Job, Setup, conv_at}
use perplexity_proxy_go.Api.Concurrent.Runs.{System, Run, stay, later, pick, advance, init}
use perplexity_proxy_go.Api.Concurrent.Effects.{address, Effect, move-Effect, eqb_self}
use perplexity_proxy_go.Api.Concurrent.Sharing.{Run-Inv, init-Inv}

unless_empty-some : (s : String) → s ≢ "" → unless_empty s ≡ some (str s)
unless_empty-some s h = elim (Bool-cases (s == "")) [
  | inl empty ↦ absurd (h ((eq_iff s "").0 empty))
  | inr full ↦ rw full refl
]

module _ {W : Type 0} (v : Setup W) (requests : ℕ → HttpRequest) where
  advance-Effect : (i : ℕ) (s : System W) → Effect (s.pc i) s.store (advance v requests i s).store
  unfolding advance
  advance-Effect i s = move-Effect v (requests i) (s.pc i) s.store

  -- Whatever steps the requests have taken since the server's start, and whatever request takes the
  -- next one: the conversations of other threads than its own stay where they are, as they are.
  pub advance-others :
      {n : ℕ} (objects : ℕ → Live) (w : W) (s : System W)
      → Run v requests n (init objects w) s
      → (i : ℕ) (id : String) (a : ℕ) → id ≢ thread (requests i)
      → lookup id s.store.convs ≡ some a
      → (lookup id (advance v requests i s).store.convs ≡ some a)
        × ((advance v requests i s).store.objects a ≡ s.store.objects a)
  advance-others objects w s r i id a other there =
      let inv = Run-Inv requests v (init objects w) s (init-Inv requests v objects w) r in
      let effect = advance-Effect i s in
      (
        effect.entries id a there,
        effect.others a (inv.allocated id a there)
            (λ e. other (inv.distinct id (thread (requests i)) a there (inv.held i a e))),
      )

  -- a conversation that is there stays there, and grows
  record Lasts (id : String) (a : ℕ) (s u : Store W) : Type 0 where
    pub entry : lookup id u.convs ≡ some a
    pub allocated : a < u.next
    pub grows : (s.objects a).conv.backend_uuid ≢ "" → (u.objects a).conv.backend_uuid ≢ ""

  Run-Lasts :
      {n : ℕ} (id : String) (a : ℕ) (s u : System W)
      → lookup id s.store.convs ≡ some a
      → a < s.store.next
      → Run v requests n s u
      → Lasts id a s.store u.store
  Run-Lasts id a s u there lt stay = record { entry = there; allocated = lt; grows = λ h. h }
  Run-Lasts id a s u there lt (later {t} r (pick i bound h)) =
      let before = Run-Lasts id a s t there lt r in
      let effect = advance-Effect i t in
      record {
        entry = effect.entries id a before.entry;
        allocated = omega (arith, before.allocated, effect.grown);
        grows = λ k. (effect.own a before.allocated).2 (before.grows k);
      }

  advance-asking :
      (j : ℕ) (u : System W) (job : Job)
      → u.pc j ≡ asking job
      → (advance v requests j u).pc j
        ≡ sending job (build_payload v.host job.query job.opt (conv_at job u.store))
  unfolding advance
  advance-asking j u job h = rw (h, eqb_self j) refl

  -- Whatever the requests have done since the server's start: where the conversation of a thread
  -- has a backend uuid, each request of the thread that asks directly and has not made its payload by
  -- then, makes it for a followup, whatever happens in between. The payload names in last_backend_uuid
  -- the thread, not empty, that the conversation has when the payload is made. A request that made its
  -- payload before is not covered, nor is one over the bridge.
  pub Run-followup :
      {n : ℕ} (objects : ℕ → Live) (w : W) (s u : System W) (j a : ℕ) (job : Job)
      → Run v requests n (init objects w) s
      → lookup (thread (requests j)) s.store.convs ≡ some a
      → (s.store.objects a).conv.backend_uuid ≢ ""
      → Run v requests n s u
      → u.pc j ≡ asking job
      → (uuid : String) × (fs : Fields) × (uuid ≢ "")
        × (uuid ≡ (u.store.objects a).conv.backend_uuid)
        × (at "last_backend_uuid" fs ≡ some (str uuid))
        × ((advance v requests j u).pc j
            ≡ sending job (obj (field "params" (obj fs) (field "query_str" (str job.query) end))))
  unfolding build_payload
  Run-followup objects w s u j a job r there threaded r' here =
      let inv = Run-Inv requests v (init objects w) s (init-Inv requests v objects w) r in
      let inv' = Run-Inv requests v s u inv r' in
      let lasts = Run-Lasts (thread (requests j)) a s u there (inv.allocated _ a there) r' in
      let same : job.address ≡ a =
        ground (arith, inv'.held j job.address (ap address here), lasts.entry) in
      let uuid = (u.store.objects a).conv.backend_uuid in
      let full : uuid ≢ "" = lasts.grows threaded in
      (
        uuid,
        params v.host job.opt (conv_at job u.store),
        full,
        refl,
        params-uuid v.host job.opt (conv_at job u.store)
            ∙ ap (λ b. unless_empty (u.store.objects b).conv.backend_uuid) same
            ∙ unless_empty-some uuid full,
        advance-asking j u job here,
      )
