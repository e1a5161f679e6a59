-- ===== src/Cli/Sync/Upstream/Class.antt =====
-- Texts of a class of characters, and the pieces of the parsers of cmd/pplx/commands_spec.go's
-- regular expressions.
use text.Mathlib.TextLemmas.{nil-append, cons-append}
use text.Mathlib.TextPositions.{starts_with-append}
use perplexity_proxy_go.Prelude.{
  Char, Bool, true, false, not, ◌&&◌, ◌≡◌, refl, sym, ap, ◌∙◌, Option, none, some, String, ◌⧺◌,
  ◌==◌, starts_with, starts_with_iff, drop_prefix, drop_prefix-append, Bool-cases, inl, inr, arith,
}
use perplexity_proxy_go.Cli.Sync.Upstream.{◌>>=◌, span, expect}

-- a text of the class `p*`
abbrev pub all_of : (Char → Bool) → String → Bool
all_of p String.[] = true
all_of p (String.◌∷◌ c s) = p c && all_of p s

abbrev pub stops : (Char → Bool) → String → Bool
stops p String.[] = true
stops p (String.◌∷◌ c s) = not (p c)

pub stops-append :
    (p : Char → Bool) (s t : String) → (s == "") ≡ false → stops p s ≡ true → stops p (s ⧺ t) ≡ true
stops-append p String.[] t n h = cc
stops-append p (String.◌∷◌ c s) t n h = rw cons-append h

pub span-append : (p : Char → Bool) (s : String) → (span p s).0 ⧺ (span p s).1 ≡ s
unfolding span
span-append p String.[] = nil-append _
span-append p (String.◌∷◌ c s) = elim (Bool-cases (p c)) [
  | inl h ↦ rw (h, cons-append, span-append p s) refl
  | inr h ↦ rw (h, nil-append) refl
]

pub all_of-span : (p : Char → Bool) (s : String) → all_of p (span p s).0 ≡ true
unfolding span
all_of-span p String.[] = refl
all_of-span p (String.◌∷◌ c s) = elim (Bool-cases (p c)) [
  | inl h ↦ rw (h, h) (all_of-span p s)
  | inr h ↦ rw h refl
]

span_stop : (p : Char → Bool) (t : String) → stops p t ≡ true → span p t ≡ (String.[], t)
unfolding span
span_stop p String.[] h = refl
span_stop p (String.◌∷◌ c t) h = let no : p c ≡ false = ground arith in rw no refl

pub span_all :
    (p : Char → Bool) (s t : String)
    → all_of p s ≡ true
    → stops p t ≡ true
    → span p (s ⧺ t) ≡ (s, t)
unfolding span
span_all p String.[] t h k = rw nil-append (span_stop p t k)
span_all p (String.◌∷◌ c s) t h k =
    let first : p c ≡ true = ground arith in
    let rest : all_of p s ≡ true = ground arith in
    rw (cons-append, span_all p s t rest k, first) refl

pub expect_sound : (l s r : String) → expect l s ≡ some r → l ⧺ r ≡ s
expect_sound l s r h = elim (Bool-cases (starts_with s l)) [
  | inl found ↦
      let (u, e) = (starts_with_iff s l).0 found in
      let hit : some (drop_prefix s l) ≡ some r = rw found at h in
      let dropped : drop_prefix s l ≡ u =
        ap (λ v. drop_prefix v l) (sym e) ∙ drop_prefix-append l u in
      let same : u ≡ r = cc in ap (λ v. l ⧺ v) (sym same) ∙ e
  | inr missing ↦ let none_left : none ≡ some r = rw missing at h in cc
]

pub expect-append : (l r : String) → expect l (l ⧺ r) ≡ some r
expect-append l r = rw (starts_with-append, drop_prefix-append) refl

pub bind-some :
    {A B : Type 0} (m : Option A) (f : A → Option B) (b : B)
    → (m >>= f) ≡ some b
    → (a : A) × (m ≡ some a) × (f a ≡ some b)
unfolding ◌>>=◌
bind-some none f b h = cc
bind-some (some a) f b h = (a, refl, h)
