-- ===== src/Api/Concurrent/Effects.antt =====
-- What a step of a request may change of the conversations.
use mathlib.Core.Bool.{false≢true}
use perplexity_proxy_go.Prelude.{
  ℕ, ◌≤◌, ◌<◌, true, false, ◌≡◌, ◌≢◌, refl, sym, ap, ◌∙◌, Option, none, some, String, ◌==◌, lookup,
  lookup-insert, eq_iff, eqb, Bool-cases, inl, inr, arith, bytes,
}
use perplexity_proxy_go.Errors.{Failure, Result, ok, err}
use perplexity_proxy_go.Json.{Value, Codec}
use perplexity_proxy_go.Spec.Decode.{Spec}
use perplexity_proxy_go.Pplx.Sse.{State, keep}
use perplexity_proxy_go.Pplx.Conversation.{Conversation}
use perplexity_proxy_go.Pplx.Ask.{finish_stream}
use perplexity_proxy_go.Pplx.Conversation.{adopt}
use perplexity_proxy_go.Pplx.Bridge.{BridgeReply, decode_reply, finish_decoded, finish_bridge}
use perplexity_proxy_go.Api.Request.{MessagesRequest, HttpRequest}
use perplexity_proxy_go.Api.Server.{Live}
use perplexity_proxy_go.Api.Server.Threads.{thread}
use perplexity_proxy_go.Api.Concurrent.{
  Store, Pc, arrived, making, made, asking, sending, streaming, finishing, bridging, running,
  decoding, replied, Job, Setup, move, move_made, move_sent, conversation_at, found_at, write_conv,
  conv_at,
}

-- the conversation that a goroutine holds
abbrev pub address : Pc → Option ℕ
address (asking job) = some job.address
address (sending job _) = some job.address
address (streaming job _) = some job.address
address (finishing job _ _) = some job.address
address (bridging job) = some job.address
address (running job _) = some job.address
address (decoding job _ _) = some job.address
address _ = none

-- A conversation after a step: its transport and spec are the same, and a thread that it had it
-- still has.
abbrev pub Grows : Live → Live → Type 0
Grows l l' =
    (l'.t ≡ l.t) × (l'.conv.sp ≡ l.conv.sp) × (l.conv.backend_uuid ≢ "" → l'.conv.backend_uuid ≢ "")

-- What the step of a goroutine does to the conversations: entries of the map stay, and of the
-- conversations that were there only the one that the goroutine holds may change.
pub record Effect {W : Type 0} (p : Pc) (s s' : Store W) : Type 0 where
  pub entries : (j : String) (a : ℕ) → lookup j s.convs ≡ some a → lookup j s'.convs ≡ some a
  pub grown : s.next ≤ s'.next
  pub others : (b : ℕ) → b < s.next → address p ≢ some b → s'.objects b ≡ s.objects b
  pub own : (b : ℕ) → b < s.next → Grows (s.objects b) (s'.objects b)

pub eqb→eq : (a b : ℕ) → eqb a b ≡ true → a ≡ b
eqb→eq a b h = ground arith

pub eqb_self : (i : ℕ) → eqb i i ≡ true
eqb_self i = ground arith

pub lt→not-eqb : (a b : ℕ) → b < a → eqb a b ≡ false
lt→not-eqb a b h = ground arith

Grows-refl : (l : Live) → Grows l l
Grows-refl l = (refl, refl, λ h. h)

module _ {W : Type 0} where
  Effect-quiet : (p : Pc) (s : Store W) (w : W) → Effect p s (record s { world = w })
  Effect-quiet p s w = record {
    entries = λ j a h. h;
    grown = omega arith;
    others = λ b lt h. refl;
    own = λ b lt. Grows-refl (s.objects b);
  }

  Effect-write :
      (p : Pc) (job : Job) (c : Conversation) (s : Store W)
      → address p ≡ some job.address
      → c.sp ≡ (conv_at job s).sp
      → ((conv_at job s).backend_uuid ≢ "" → c.backend_uuid ≢ "")
      → Effect p s (write_conv job c s)
  Effect-write p job c s held same kept = record {
    entries = λ j a h. h;
    grown = omega arith;
    others = λ b lt h. elim (Bool-cases (eqb job.address b)) [
      | inl own ↦ absurd (h (held ∙ ap some (eqb→eq job.address b own)))
      | inr other ↦ rw other refl
    ];
    own = λ b lt. elim (Bool-cases (eqb job.address b)) [
      | inl mine ↦ rw (mine, ← eqb→eq job.address b mine) (refl, same, kept)
      | inr other ↦ rw other (Grows-refl (s.objects b))
    ];
  }

  Effect-found :
      (p : Pc) (o : Option ℕ) (id : String) (l : Live) (s : Store W)
      → lookup id s.convs ≡ o
      → Effect p s (found_at o id l s).1
  Effect-found p (some a) id l s h = Effect-quiet p s s.world
  Effect-found p none id l s h = record {
    entries = λ j a k. ground (arith, lookup-insert id j s.next s.convs, eq_iff id j);
    grown = omega arith;
    others = λ b lt k. rw (lt→not-eqb s.next b lt) refl;
    own = λ b lt. rw (lt→not-eqb s.next b lt) (Grows-refl (s.objects b));
  }

keep-ne_empty : (v old : String) → old ≢ "" → keep (some v) old ≢ ""
keep-ne_empty v old h = elim (Bool-cases (v == "")) [
  | inl empty ↦ rw empty h
  | inr full ↦ rw full (λ e. false≢true (sym full ∙ (eq_iff v "").1 e))
]

-- what a method leaves of the conversation
abbrev pub KeepsThread : Conversation → Conversation → Type 0
KeepsThread c c' = (c'.sp ≡ c.sp) × (c.backend_uuid ≢ "" → c'.backend_uuid ≢ "")

adopt-KeepsThread : (uuid token : String) (c : Conversation) → KeepsThread c (adopt uuid token c)
adopt-KeepsThread uuid token c = (refl, keep-ne_empty uuid c.backend_uuid)

finish_stream-KeepsThread :
    (r : State × Option Failure) (c : Conversation) → KeepsThread c (finish_stream r c).1
unfolding finish_stream
finish_stream-KeepsThread (st, some e) c = (refl, λ h. h)
finish_stream-KeepsThread (st, none) c = elim (Bool-cases st.authwalled) [
  | inl walled ↦ rw walled (refl, λ h. h)
  | inr open_one ↦ rw open_one (adopt-KeepsThread st.backend_uuid st.read_write_token c)
]

finish_decoded-KeepsThread :
    (out : String) (r : Result BridgeReply) (c : Conversation)
    → KeepsThread c (finish_decoded out r c).1
finish_decoded-KeepsThread out (err e) c = (refl, λ h. h)
finish_decoded-KeepsThread out (ok r) c = elim (Bool-cases (r.error == "")) [
  | inl good ↦ rw good (adopt-KeepsThread r.backend_uuid r.read_write_token c)
  | inr bad ↦ rw bad (refl, λ h. h)
]

finish_bridge-KeepsThread :
    (codec : Codec) (out : String) (e : Option Failure) (c : Conversation)
    → KeepsThread c (finish_bridge codec out e c).1
unfolding finish_bridge
finish_bridge-KeepsThread codec out (some e) c = (refl, λ h. h)
finish_bridge-KeepsThread codec out none c =
    finish_decoded-KeepsThread out (decode_reply (codec.parse (bytes out))) c

module _ {W : Type 0} (v : Setup W) where
  move_made-Effect :
      (p : Pc) (req : MessagesRequest) (query : String) (m : Result (ℕ × Spec) × W) (s : Store W)
      → Effect p s (move_made v req query m s).1
  move_made-Effect p req query (err e, w) s = Effect-quiet p s w
  move_made-Effect p req query (ok (t, sp), w) s = Effect-quiet p s w

  move_sent-Effect :
      (p : Pc) (job : Job) (payload : Value) (r : Result (Unit {0}) × W) (s : Store W)
      → Effect p s (move_sent v job payload r s).1
  move_sent-Effect p job payload (err e, w) s = Effect-quiet p s w
  move_sent-Effect p job payload (ok _, w) s = Effect-quiet p s w

  pub move-Effect : (r : HttpRequest) (p : Pc) (s : Store W) → Effect p s (move v r p s).1
  unfolding move
  move-Effect r arrived s = Effect-quiet arrived s s.world
  move-Effect r (making req query) s = move_made-Effect _ req query (v.factory s.world) s
  move-Effect r (made req query t sp) s =
      unfold conversation_at in
      Effect-found (made req query t sp) (lookup (thread r) s.convs) (thread r) _ s refl
  move-Effect r (asking job) s = Effect-quiet (asking job) s s.world
  move-Effect r (sending job payload) s = move_sent-Effect _ job payload _ s
  move-Effect r (streaming job payload) s = Effect-quiet (streaming job payload) s _
  move-Effect r (finishing job st e) s =
      let (same, kept) = finish_stream-KeepsThread (st, e) (conv_at job s) in
      Effect-write (finishing job st e) job _ s refl same kept
  move-Effect r (bridging job) s = Effect-quiet (bridging job) s s.world
  move-Effect r (running job input) s = Effect-quiet (running job input) s _
  move-Effect r (decoding job out e) s =
      let (same, kept) = finish_bridge-KeepsThread v.host.codec out e (conv_at job s) in
      Effect-write (decoding job out e) job _ s refl same kept
  move-Effect r (replied reply) s = Effect-quiet (replied reply) s s.world
