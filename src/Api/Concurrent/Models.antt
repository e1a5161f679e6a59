-- ===== src/Api/Concurrent/Models.antt =====
-- The shared state against the state of the server that takes a request at a time.
use perplexity_proxy_go.Prelude.{
  ℕ, ◌<◌, ◌≡◌, ◌≢◌, refl, sym, ap, ◌∙◌, Option, none, some, String, ◌==◌, lookup, insert,
  lookup-insert, eq_iff, eq_refl, eqb, Bool-cases, inl, inr, arith,
}
use perplexity_proxy_go.Spec.Decode.{Spec}
use perplexity_proxy_go.Pplx.Conversation.{Conversation, new_conversation}
use perplexity_proxy_go.Api.Server.{Live, Server, found_or}
use perplexity_proxy_go.Api.Concurrent.{Store, Job, found_at, write_conv, set_object}
use perplexity_proxy_go.Api.Concurrent.Effects.{eqb→eq, eqb_self}
use perplexity_proxy_go.Api.Concurrent.Sharing.{lookup-insert_cases}

abbrev pub read_at : (ℕ → Live) → Option ℕ → Option Live
read_at objects none = none
read_at objects (some a) = some (objects a)

-- The store holds the world and the conversations of the server that takes a request at a time.
pub record Models {W : Type 0} (s : Store W) (m : Server W) : Type 0 where
  pub world : m.world ≡ s.world
  pub convs : (id : String) → lookup id m.convs ≡ read_at s.objects (lookup id s.convs)

-- The conversation `l` of the thread stands at the address; those of other threads are elsewhere,
-- and are the server's.
pub record Holds {W : Type 0} (id : String) (a : ℕ) (l : Live) (s : Store W) (m : Server W)
    : Type 0 where
  pub entry : lookup id s.convs ≡ some a
  pub here : s.objects a ≡ l
  pub alone : (j : String) → lookup j s.convs ≡ some a → j ≡ id
  pub aside : (j : String) → j ≢ id → lookup j m.convs ≡ read_at s.objects (lookup j s.convs)

read_at-set :
    (a : ℕ) (l : Live) (objects : ℕ → Live) (o : Option ℕ)
    → o ≢ some a
    → read_at objects o ≡ read_at (set_object a l objects) o
read_at-set a l objects none h = refl
read_at-set a l objects (some b) h = elim (Bool-cases (eqb a b)) [
  | inl same ↦ absurd (h (ap some (sym (eqb→eq a b same))))
  | inr other ↦ rw other refl
]

module _ {W : Type 0} (id : String) where
  pub Holds-Models :
      (a : ℕ) (l : Live) (s : Store W) (m : Server W) (w : W)
      → Holds id a l s m
      → s.world ≡ w
      → Models s (record m { convs = insert id l m.convs; world = w })
  Holds-Models a l s m w h e = record { world = sym e; convs = convs }
    where
      convs : (j : String) → lookup j (insert id l m.convs) ≡ read_at s.objects (lookup j s.convs)
      convs j = elim (Bool-cases (id == j)) [
        | inl same ↦
            rw (lookup-insert id j l m.convs, same, ← (eq_iff id j).0 same, h.entry, h.here) refl
        | inr other ↦
            rw (lookup-insert id j l m.convs, other) (h.aside j (λ e. ground (arith, eq_iff id j)))
      ]

  pub Holds-write :
      (l : Live) (s : Store W) (m : Server W) (job : Job) (c : Conversation)
      → Holds id job.address l s m
      → Holds id job.address (record l { conv = c }) (write_conv job c s) m
  Holds-write l s m job c h = record {
    entry = h.entry;
    here = rw (eqb_self job.address) (ap (λ (k : Live). record k { conv = c }) h.here);
    alone = h.alone;
    aside = λ j other.
        h.aside j other
        ∙ read_at-set job.address _ s.objects (lookup j s.convs) (λ e. other (h.alone j e));
  }

  pub Holds-insert :
      (a : ℕ) (l l' : Live) (s : Store W) (m : Server W)
      → Holds id a l s m
      → Holds id a l s (record m { convs = insert id l' m.convs })
  Holds-insert a l l' s m h = record {
    entry = h.entry;
    here = h.here;
    alone = h.alone;
    aside = λ j other. ground (arith, lookup-insert id j l' m.convs, eq_iff id j) ∙ h.aside j other;
  }

  pub found_at-world :
      (o : Option ℕ) (l : Live) (s : Store W) → (found_at o id l s).1.world ≡ s.world
  found_at-world none l s = refl
  found_at-world (some a) l s = refl

  pub Holds-found :
      (t : ℕ) (sp : Spec) (s : Store W) (m : Server W) (o : Option ℕ)
      → lookup id s.convs ≡ o
      → Models s m
      → ((j : String) (a : ℕ) → lookup j s.convs ≡ some a → a < s.next)
      → ((j k : String) (a : ℕ) → lookup j s.convs ≡ some a → lookup k s.convs ≡ some a → j ≡ k)
      → (let new : Live = record { t = t; conv = new_conversation sp } in
          Holds id
            (found_at o id new s).0
            (found_or (lookup id m.convs) new)
            (found_at o id new s).1
            m)
  Holds-found t sp s m (some a) e models allocated distinct = record {
    entry = e;
    here = rw (models.convs id, e) refl;
    alone = λ j h. distinct j id a h e;
    aside = λ j other. models.convs j;
  }
  Holds-found t sp s m none e models allocated distinct =
      let new : Live = record { t = t; conv = new_conversation sp } in
      record {
        entry = rw (lookup-insert id id s.next s.convs, eq_refl id) refl;
        here = rw (eqb_self s.next, models.convs id, e) refl;
        alone = λ j h. elim (lookup-insert_cases id j s.next s.next s.convs h) [
          | inl (k, f) ↦ k
          | inr old ↦ absurd (omega (arith, allocated j s.next old))
        ];
        aside = λ j other.
            models.convs j
            ∙ read_at-set s.next new s.objects (lookup j s.convs)
                (λ h. absurd (omega (arith, allocated j s.next h)))
            ∙ ap (read_at (set_object s.next new s.objects)) (sym (found_other j other));
      }
    where
      found_other : (j : String) → j ≢ id → lookup j (insert id s.next s.convs) ≡ lookup j s.convs
      found_other j other = ground (arith, lookup-insert id j s.next s.convs, eq_iff id j)
