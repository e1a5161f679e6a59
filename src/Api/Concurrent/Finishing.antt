-- ===== src/Api/Concurrent/Finishing.antt =====
-- The requests that run at the same time all end.
use perplexity_proxy_go.Prelude.{
  ℕ, zero, suc, ◌+◌, ◌*◌, ◌≤◌, ◌<◌, true, false, ◌≡◌, refl, String, eqb, ◌⊎◌, Bool-cases, inl, inr,
  arith, if◌then◌else◌,
}
use perplexity_proxy_go.Errors.{Result, ok, err}
use perplexity_proxy_go.Json.{Value}
use perplexity_proxy_go.Spec.Decode.{Spec}
use perplexity_proxy_go.Pplx.Sse.{State}
use perplexity_proxy_go.Pplx.Conversation.{Answer}
use perplexity_proxy_go.Api.Request.{
  MessagesRequest, HttpRequest, Checked, passed, refused, read_request,
}
use perplexity_proxy_go.Api.Server.{Live}
use perplexity_proxy_go.Api.Concurrent.{
  Store, Pc, arrived, making, made, asking, sending, streaming, finishing, bridging, running,
  decoding, replied, Job, Setup, is_done, move, move_checked, move_made, move_sent, after_ask,
  begin,
}
use perplexity_proxy_go.Api.Concurrent.Runs.{System, pick, Run, stay, later, steps, advance, init}

-- at most so many steps are left
abbrev rank : Pc → ℕ
rank arrived = 10
rank (making _ _) = 9
rank (made _ _ _ _) = 8
rank (asking _) = 7
rank (sending _ _) = 6
rank (streaming _ _) = 5
rank (finishing _ _ _) = 4
rank (bridging _) = 3
rank (running _ _) = 2
rank (decoding _ _ _) = 1
rank (replied _) = 0

total : ℕ → (ℕ → Pc) → ℕ
total zero pc = 0
total (suc n) pc = total n pc + rank (pc n)

total-update_of_le :
    (n : ℕ) (pc : ℕ → Pc) (i : ℕ) (p : Pc)
    → n ≤ i
    → total n (λ j. if eqb i j then p else pc j) ≡ total n pc
unfolding total
total-update_of_le zero pc i p h = refl
total-update_of_le (suc n) pc i p h = ground (arith, total-update_of_le n pc i p)

total-update :
    (n : ℕ) (pc : ℕ → Pc) (i : ℕ) (p : Pc)
    → i < n
    → total n (λ j. if eqb i j then p else pc j) + rank (pc i) ≡ total n pc + rank p
unfolding total
total-update zero pc i p h = absurd (omega arith)
total-update (suc n) pc i p h = elim (Bool-cases (eqb i n)) [
  | inl last ↦ ground (arith, total-update_of_le n pc i p)
  | inr below ↦ ground (arith, total-update n pc i p)
]

total-le : (n : ℕ) (pc : ℕ → Pc) → total n pc ≤ 10 * n
unfolding total
total-le zero pc = omega arith
total-le (suc n) pc = omega (arith, total-le n pc, rank-le (pc n))
  where
    rank-le : (p : Pc) → rank p ≤ 10
    rank-le p = ground arith

rank_pos : (p : Pc) → is_done p ≡ false → 1 ≤ rank p
rank_pos p h = ground arith

total_pos : (n : ℕ) (pc : ℕ → Pc) (i : ℕ) → i < n → is_done (pc i) ≡ false → 1 ≤ total n pc
unfolding total
total_pos zero pc i lt h = absurd (omega arith)
total_pos (suc n) pc i lt h = elim (Bool-cases (eqb i n)) [
  | inl last ↦ ground (arith, rank_pos (pc i) h)
  | inr below ↦ ground (arith, total_pos n pc i)
]

-- a request that is not done, where there is one
abbrev Pending : ℕ → (ℕ → Pc) → Type 0
Pending n pc = (i : ℕ) × (i < n) × (is_done (pc i) ≡ false)

abbrev AllDone : ℕ → (ℕ → Pc) → Type 0
AllDone n pc = (i : ℕ) → i < n → is_done (pc i) ≡ true

pending : (n : ℕ) (pc : ℕ → Pc) → AllDone n pc ⊎ Pending n pc
pending zero pc = inl (λ i lt. absurd (omega arith))
pending (suc n) pc = elim (Bool-cases (is_done (pc n))) [
  | inr open_one ↦ inr (n, omega arith, open_one)
  | inl last ↦ elim (pending n pc) [
    | inl before ↦ inl (λ i lt. elim (Bool-cases (eqb i n)) [
      | inl e ↦ ground arith
      | inr e ↦ before i (ground arith)
    ])
    | inr (i, lt, h) ↦ inr (i, omega arith, h)
  ]
]

module _ {W : Type 0} (v : Setup W) where
  rank-checked : (c : Checked (MessagesRequest × String)) → rank (move_checked v c) ≤ 9
  rank-checked (refused status type msg) = omega arith
  rank-checked (passed (req, query)) = omega arith

  rank-made :
      (req : MessagesRequest) (query : String) (m : Result (ℕ × Spec) × W) (s : Store W)
      → rank (move_made v req query m s).0 ≤ 8
  rank-made req query (err e, w) s = omega arith
  rank-made req query (ok (t, sp), w) s = omega arith

  rank-begin : (job : Job) → rank (begin v job) ≤ 7
  rank-begin job = ground arith

  rank-after_ask : (job : Job) (st : State) (r : Result Answer) → rank (after_ask v job st r) ≤ 3
  rank-after_ask job st (ok a) = ground arith
  rank-after_ask job st (err e) = ground arith

  rank-sent :
      (job : Job) (payload : Value) (r : Result (Unit {0}) × W) (s : Store W)
      → rank (move_sent v job payload r s).0 ≤ 5
  rank-sent job payload (err e, w) s = omega (arith, rank-after_ask job _ (err _))
  rank-sent job payload (ok _, w) s = omega arith

  rank-move :
      (r : HttpRequest) (p : Pc) (s : Store W) → is_done p ≡ false → rank (move v r p s).0 < rank p
  unfolding move
  rank-move r arrived s h = omega (arith, rank-checked (read_request v.host v.api_key r))
  rank-move r (making req query) s h = omega (arith, rank-made req query (v.factory s.world) s)
  rank-move r (made req query t sp) s h = omega (arith, rank-begin _)
  rank-move r (asking job) s h = omega arith
  rank-move r (sending job payload) s h = omega (arith, rank-sent job payload _ s)
  rank-move r (streaming job payload) s h = omega arith
  rank-move r (finishing job st e) s h = omega (arith, rank-after_ask job st _)
  rank-move r (bridging job) s h = omega arith
  rank-move r (running job input) s h = omega arith
  rank-move r (decoding job out e) s h = omega arith
  rank-move r (replied reply) s h = absurd (cc)

  module _ (requests : ℕ → HttpRequest) (n : ℕ) where
    total-advance :
        (i : ℕ) (s : System W)
        → i < n
        → is_done (s.pc i) ≡ false
        → total n (advance v requests i s).pc < total n s.pc
    unfolding advance
    total-advance i s lt h = omega (
      arith,
      total-update n s.pc i (move v (requests i) (s.pc i) s.store).0,
      rank-move (requests i) (s.pc i) s.store h,
    )

    steps-le :
        {s t : System W} (r : Run v requests n s t)
        → steps v requests r + total n t.pc ≤ total n s.pc
    steps-le stay = omega arith
    steps-le (later {t} r (pick i lt h)) = omega (arith, steps-le r, total-advance i t lt h)

    -- a run that goes on until every request has its reply
    abbrev Completed : System W → Type 0
    Completed s = (u : System W) × Run v requests n s u × AllDone n u.pc

    finish : (fuel : ℕ) (s t : System W) → Run v requests n s t → total n t.pc ≤ fuel → Completed s
    finish zero s t r enough = elim (pending n t.pc) [
      | inl over ↦ (t, r, over)
      | inr (i, lt, h) ↦ absurd (omega (arith, total_pos n t.pc i lt h))
    ]
    finish (suc fuel) s t r enough = elim (pending n t.pc) [
      | inl over ↦ (t, r, over)
      | inr (i, lt, h) ↦
          finish fuel s (advance v requests i t) (later r (pick i lt h))
            (omega (arith, total-advance i t lt h))
    ]

    -- However `n` requests are interleaved, a run has at most ten times as many steps as requests, and
    -- whatever has been done so far, the requests can go on until each has its reply.
    pub Run-bounds :
        (objects : ℕ → Live) (w : W) (s : System W) (r : Run v requests n (init objects w) s)
        → (steps v requests r ≤ 10 * n)
          × ((u : System W) × Run v requests n s u × ((i : ℕ) → i < n → is_done (u.pc i) ≡ true))
    Run-bounds objects w s r = (
      omega (arith, steps-le r, total-le n (λ _. arrived)),
      finish (total n s.pc) s s stay (omega arith),
    )
