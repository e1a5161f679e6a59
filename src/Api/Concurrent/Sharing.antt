-- ===== src/Api/Concurrent/Sharing.antt =====
-- Which conversations the requests that run at the same time share.
use perplexity_proxy_go.Prelude.{
  ℕ, ◌<◌, ◌≡◌, ◌⊎◌, ◌↔◌, refl, sym, ap, ◌∙◌, Option, none, some, String, ◌==◌, lookup, insert,
  lookup-insert, eq_iff, eq_refl, eqb, Bool-cases, inl, inr, arith, List,
}
use perplexity_proxy_go.Pplx.Conversation.{new_conversation}
use perplexity_proxy_go.Api.Request.{HttpRequest}
use perplexity_proxy_go.Api.Server.{Live}
use perplexity_proxy_go.Api.Server.Threads.{thread}
use perplexity_proxy_go.Api.Concurrent.{Store, Pc, Setup, conversation_at, found_at}
use perplexity_proxy_go.Api.Concurrent.Runs.{System, pick, Run, stay, later, advance, init, update}
use perplexity_proxy_go.Api.Concurrent.Effects.{address, eqb→eq}
use perplexity_proxy_go.Api.Concurrent.Quiet.{is_made, made_of, Quiet, address-begin, Quiet-move}

-- Every entry of the map is allocated, no two threads have one conversation, and what a goroutine
-- holds is the conversation of its thread.
pub record Inv {W : Type 0} (requests : ℕ → HttpRequest) (s : System W) : Type 0 where
  pub allocated : (j : String) (a : ℕ) → lookup j s.store.convs ≡ some a → a < s.store.next
  pub distinct :
      (j k : String) (a : ℕ)
      → lookup j s.store.convs ≡ some a
      → lookup k s.store.convs ≡ some a
      → j ≡ k
  pub held :
      (i a : ℕ) → address (s.pc i) ≡ some a → lookup (thread (requests i)) s.store.convs ≡ some a

pub lookup-insert_cases :
    (set j : String) (n a : ℕ) (m : List (String × ℕ))
    → lookup j (insert set n m) ≡ some a
    → ((j ≡ set) × (a ≡ n)) ⊎ (lookup j m ≡ some a)
lookup-insert_cases set j n a m h = elim (Bool-cases (set == j)) [
  | inl same ↦ inl (sym ((eq_iff set j).0 same), ground (arith, lookup-insert set j n m))
  | inr other ↦ inr (ground (arith, lookup-insert set j n m))
]

pub lookup-insert_kept :
    (set j : String) (n a : ℕ) (m : List (String × ℕ))
    → lookup set m ≡ none
    → lookup j m ≡ some a
    → lookup j (insert set n m) ≡ some a
lookup-insert_kept set j n a m h k = ground (arith, lookup-insert set j n m, eq_iff set j)

-- The goroutine of request `i` comes to hold what it held, or the entry of its thread.
held_after :
    (requests : ℕ → HttpRequest) (i : ℕ) (pc : ℕ → Pc) (p : Pc) (convs : List (String × ℕ))
    → ((a : ℕ) → address p ≡ some a → lookup (thread (requests i)) convs ≡ some a)
    → ((j a : ℕ) → address (pc j) ≡ some a → lookup (thread (requests j)) convs ≡ some a)
    → (j a : ℕ) → address (update pc i p j) ≡ some a
    → lookup (thread (requests j)) convs ≡ some a
held_after requests i pc p convs mine others j a h = elim (Bool-cases (eqb i j)) [
  | inl e ↦ rw (← eqb→eq i j e) (mine a (rw e at h))
  | inr e ↦ others j a (rw e at h)
]

module _ {W : Type 0} (requests : ℕ → HttpRequest) where
  Inv-Quiet :
      (i : ℕ) (s : System W) (p : Pc) (store : Store W)
      → Quiet (s.pc i) s.store p store
      → Inv requests s
      → Inv requests (record { store = store; pc = update s.pc i p })
  Inv-Quiet i s p store q inv = record {
    allocated = λ j a h. rw q.next (inv.allocated j a (rw q.convs at h));
    distinct = λ j k a g h. inv.distinct j k a (rw q.convs at g) (rw q.convs at h);
    held = λ j a h. rw q.convs (
        held_after requests i s.pc p s.store.convs (λ b e. inv.held i b (q.holding b e)) inv.held j
          a h);
  }

  -- the step under the lock
  Inv-found :
      (i : ℕ) (s : System W) (o : Option ℕ) (l : Live) (p : Pc)
      → lookup (thread (requests i)) s.store.convs ≡ o
      → ((a : ℕ) → address p ≡ some a → (found_at o (thread (requests i)) l s.store).0 ≡ a)
      → Inv requests s
      → Inv requests
          (record { store = (found_at o (thread (requests i)) l s.store).1; pc = update s.pc i p })
  Inv-found i s (some b) l p there got inv = record {
    allocated = inv.allocated;
    distinct = inv.distinct;
    held = held_after requests i s.pc p s.store.convs (λ a h. there ∙ ap some (got a h)) inv.held;
  }
  Inv-found i s none l p there got inv =
      let id = thread (requests i) in
      record {
        allocated = λ j a h. elim (lookup-insert_cases id j s.store.next a s.store.convs h) [
          | inl (e, f) ↦ omega arith
          | inr old ↦ omega (arith, inv.allocated j a old)
        ];
        distinct = λ j k a g h. elim (lookup-insert_cases id j s.store.next a s.store.convs g) [
          | inl (e, f) ↦ elim (lookup-insert_cases id k s.store.next a s.store.convs h) [
            | inl (e', f') ↦ e ∙ sym e'
            | inr old ↦ absurd (omega (arith, inv.allocated k a old))
          ]
          | inr old ↦ elim (lookup-insert_cases id k s.store.next a s.store.convs h) [
            | inl (e', f') ↦ absurd (omega (arith, inv.allocated j a old))
            | inr old' ↦ inv.distinct j k a old old'
          ]
        ];
        held =
            held_after requests i s.pc p (insert id s.store.next s.store.convs)
              (λ a h.
                rw (lookup-insert id id s.store.next s.store.convs, eq_refl id) (ap some (got a h)))
              (λ j a h.
                lookup-insert_kept id (thread (requests j)) s.store.next a s.store.convs there
                  (inv.held j a h));
      }

  module _ (v : Setup W) where
    advance-Inv : (i : ℕ) (s : System W) → Inv requests s → Inv requests (advance v requests i s)
    unfolding advance
    advance-Inv i s inv = elim (Bool-cases (is_made (s.pc i))) [
      | inr other ↦ Inv-Quiet i s _ _ (Quiet-move v (requests i) (s.pc i) s.store other) inv
      | inl locking ↦
          let (req, query, t, sp, e) = made_of (s.pc i) locking in
          rw e (
            unfold conversation_at in
            Inv-found i s (lookup (thread (requests i)) s.store.convs)
              (record { t = t; conv = new_conversation sp }) _ refl (λ a h. address-begin v _ a h)
              inv)
    ]

    pub Run-Inv : {n : ℕ} (s u : System W) → Inv requests s → Run v requests n s u → Inv requests u
    Run-Inv s u inv stay = inv
    Run-Inv s u inv (later {t} r (pick i lt h)) = advance-Inv i t (Run-Inv s t inv r)

    pub init-Inv : (objects : ℕ → Live) (w : W) → Inv requests (init objects w)
    unfolding lookup
    init-Inv objects w = record {
      allocated = λ j a h. absurd (cc);
      distinct = λ j k a g h. absurd (cc);
      held = λ i a h. absurd (cc);
    }

    -- Whatever steps `n` requests have taken since the server's start: requests of one thread that
    -- hold a conversation hold the same one, and requests of different threads hold different ones.
    pub Run-same_conversation :
        {n : ℕ} (objects : ℕ → Live) (w : W) (s : System W)
        → Run v requests n (init objects w) s
        → (i j a b : ℕ) → address (s.pc i) ≡ some a
        → address (s.pc j) ≡ some b
        → (thread (requests i) ≡ thread (requests j)) ↔ (a ≡ b)
    Run-same_conversation objects w s r i j a b g h =
        let inv = Run-Inv (init objects w) s (init-Inv objects w) r in
        let mine = inv.held i a g in
        let others = inv.held j b h in
        (
          λ e. ground (arith, mine, others, ap (λ k. lookup k s.store.convs) e),
          λ e. inv.distinct (thread (requests i)) (thread (requests j)) a mine (rw e others),
        )
