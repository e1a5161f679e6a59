-- ===== src/Api/Concurrent/Quiet.antt =====
-- The steps that leave the map of conversations as it is.
use perplexity_proxy_go.Prelude.{ℕ, Bool, true, false, ◌≡◌, refl, none, some, String, arith}
use perplexity_proxy_go.Errors.{Result, ok, err}
use perplexity_proxy_go.Json.{Value}
use perplexity_proxy_go.Spec.Decode.{Spec}
use perplexity_proxy_go.Pplx.Sse.{State, start}
use perplexity_proxy_go.Pplx.Conversation.{Answer}
use perplexity_proxy_go.Api.Request.{
  MessagesRequest, HttpRequest, Checked, passed, refused, read_request,
}
use perplexity_proxy_go.Api.Concurrent.{
  Store, Pc, arrived, making, made, asking, sending, streaming, finishing, bridging, running,
  decoding, replied, Job, Setup, move, move_checked, move_made, move_sent, after_ask, begin,
}
use perplexity_proxy_go.Api.Concurrent.Effects.{address}

-- whether the lock comes next
abbrev pub is_made : Pc → Bool
is_made (made _ _ _ _) = true
is_made _ = false

pub made_of :
    (p : Pc)
    → is_made p ≡ true
    → (req : MessagesRequest) × (query : String) × (t : ℕ) × (sp : Spec) × (p ≡ made req query t sp)
made_of (made req query t sp) h = (req, query, t, sp, refl)
made_of p h = absurd (cc)

-- what a goroutine holds after a step, it held before, and the map is as before
pub record Quiet {W : Type 0} (p : Pc) (s : Store W) (p' : Pc) (s' : Store W) : Type 0 where
  pub holding : (a : ℕ) → address p' ≡ some a → address p ≡ some a
  pub convs : s'.convs ≡ s.convs
  pub next : s'.next ≡ s.next

module _ {W : Type 0} (v : Setup W) where
  address-checked : (c : Checked (MessagesRequest × String)) → address (move_checked v c) ≡ none
  address-checked (refused status type msg) = refl
  address-checked (passed (req, query)) = refl

  address-after_ask :
      (job : Job) (st : State) (r : Result Answer) (a : ℕ)
      → address (after_ask v job st r) ≡ some a
      → some job.address ≡ some a
  address-after_ask job st (ok x) a h = ground arith
  address-after_ask job st (err e) a h = ground arith

  pub address-begin : (job : Job) (a : ℕ) → address (begin v job) ≡ some a → job.address ≡ a
  address-begin job a h = ground arith

  Quiet-made :
      (req : MessagesRequest) (query : String) (m : Result (ℕ × Spec) × W) (s : Store W)
      → Quiet (making req query) s (move_made v req query m s).0 (move_made v req query m s).1
  Quiet-made req query (err e, w) s = record { holding = λ a h. h; convs = refl; next = refl }
  Quiet-made req query (ok (t, sp), w) s = record { holding = λ a h. h; convs = refl; next = refl }

  Quiet-sent :
      (job : Job) (payload : Value) (r : Result (Unit {0}) × W) (s : Store W)
      → Quiet
          (sending job payload)
          s
          (move_sent v job payload r s).0
          (move_sent v job payload r s).1
  Quiet-sent job payload (err e, w) s = record {
    holding = address-after_ask job (start job.stream) (err _);
    convs = refl;
    next = refl;
  }
  Quiet-sent job payload (ok _, w) s = record { holding = λ a h. h; convs = refl; next = refl }

  -- every step but that under the lock
  pub Quiet-move :
      (r : HttpRequest) (p : Pc) (s : Store W)
      → is_made p ≡ false
      → Quiet p s (move v r p s).0 (move v r p s).1
  unfolding move
  Quiet-move r arrived s h = record {
    holding = λ a k. absurd (cc (address-checked (read_request v.host v.api_key r)));
    convs = refl;
    next = refl;
  }
  Quiet-move r (making req query) s h = Quiet-made req query (v.factory s.world) s
  Quiet-move r (made req query t sp) s h = absurd (cc)
  Quiet-move r (asking job) s h = record { holding = λ a k. k; convs = refl; next = refl }
  Quiet-move r (sending job payload) s h = Quiet-sent job payload _ s
  Quiet-move r (streaming job payload) s h = record {
    holding = λ a k. k;
    convs = refl;
    next = refl;
  }
  Quiet-move r (finishing job st e) s h = record {
    holding = address-after_ask job st _;
    convs = refl;
    next = refl;
  }
  Quiet-move r (bridging job) s h = record { holding = λ a k. k; convs = refl; next = refl }
  Quiet-move r (running job input) s h = record { holding = λ a k. k; convs = refl; next = refl }
  Quiet-move r (decoding job out e) s h = record {
    holding = λ a k. absurd (cc);
    convs = refl;
    next = refl;
  }
  Quiet-move r (replied reply) s h = record { holding = λ a k. k; convs = refl; next = refl }
