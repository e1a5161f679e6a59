-- ===== src/Cli/Sync/Upstream/Regex.antt =====
-- The parser `final_str` and the regular expression `reFinalStr` of cmd/pplx/commands_spec.go.
use perplexity_proxy_go.Prelude.{
  Char, Bool, true, false, ◌≡◌, refl, sym, ap, ◌∙◌, Option, none, some, String, ◌⧺◌, ◌==◌,
  Bool-cases, inl, inr,
}
use perplexity_proxy_go.Cli.Sync.Upstream.Class.{
  all_of, stops, stops-append, span-append, all_of-span, span_all, expect_sound, expect-append,
  bind-some,
}
use perplexity_proxy_go.Cli.Sync.Upstream.{
  ◌>>=◌, is_upper, is_blank, is_plain, span, expect, some_of, value_after_name, final_str,
}

abbrev pub after_name : (b1 b2 b3 value tail : String) → String
after_name b1 b2 b3 value tail =
    ":" ⧺ (b1 ⧺ ("Final[str]" ⧺ (b2 ⧺ ("=" ⧺ (b3 ⧺ ("\"" ⧺ (value ⧺ ("\"" ⧺ tail))))))))

value-append :
    (b1 b2 b3 value tail : String)
    → all_of is_blank b1 ≡ true
    → all_of is_blank b2 ≡ true
    → all_of is_blank b3 ≡ true
    → all_of is_plain value ≡ true
    → value_after_name (after_name b1 b2 b3 value tail) ≡ some value
unfolding value_after_name ◌>>=◌
value-append b1 b2 b3 value tail h1 h2 h3 hv =
    let s4 = "\"" ⧺ (value ⧺ ("\"" ⧺ tail)) in
    let s3 = "=" ⧺ (b3 ⧺ s4) in
    let s2 = "Final[str]" ⧺ (b2 ⧺ s3) in
    rw
      (
        expect-append ":" (b1 ⧺ s2),
        span_all is_blank b1 s2 h1 (stops-append is_blank "Final[str]" (b2 ⧺ s3) refl refl),
        expect-append "Final[str]" (b2 ⧺ s3),
        span_all is_blank b2 s3 h2 (stops-append is_blank "=" (b3 ⧺ s4) refl refl),
        expect-append "=" (b3 ⧺ s4),
        span_all is_blank b3 s4 h3 (stops-append is_blank "\"" (value ⧺ ("\"" ⧺ tail)) refl refl),
        expect-append "\"" (value ⧺ ("\"" ⧺ tail)),
        span_all is_plain value ("\"" ⧺ tail) hv (stops-append is_plain "\"" tail refl refl),
        expect-append "\"" tail,
      )
      refl

pieces :
    (b1 b2 b3 value tail : String) {s s1 s2 s3 s4 t1 t2 t3 t4 : String}
    → ":" ⧺ s1 ≡ s
    → b1 ⧺ t1 ≡ s1
    → "Final[str]" ⧺ s2 ≡ t1
    → b2 ⧺ t2 ≡ s2
    → "=" ⧺ s3 ≡ t2
    → b3 ⧺ t3 ≡ s3
    → "\"" ⧺ s4 ≡ t3
    → value ⧺ t4 ≡ s4
    → "\"" ⧺ tail ≡ t4
    → s ≡ after_name b1 b2 b3 value tail
pieces b1 b2 b3 value tail e1 e2 e3 e4 e5 e6 e7 e8 e9 =
    rw (← e1, ← e2, ← e3, ← e4, ← e5, ← e6, ← e7, ← e8, ← e9) refl

value-inverse :
    (s value : String)
    → value_after_name s ≡ some value
    → (b1 b2 b3 tail : String) × (all_of is_blank b1 ≡ true)
      × (all_of is_blank b2 ≡ true)
      × (all_of is_blank b3 ≡ true)
      × (all_of is_plain value ≡ true)
      × (s ≡ after_name b1 b2 b3 value tail)
unfolding value_after_name
value-inverse s value h =
    let (s1, e1, g1) = bind-some (expect ":" s) _ value h in
    let (s2, e2, g2) = bind-some (expect "Final[str]" (span is_blank s1).1) _ value g1 in
    let (s3, e3, g3) = bind-some (expect "=" (span is_blank s2).1) _ value g2 in
    let (s4, e4, g4) = bind-some (expect "\"" (span is_blank s3).1) _ value g3 in
    let (s5, e5, g5) = bind-some (expect "\"" (span is_plain s4).1) _ value g4 in
    let same : (span is_plain s4).0 ≡ value = cc in
    (
      (span is_blank s1).0,
      (span is_blank s2).0,
      (span is_blank s3).0,
      s5,
      all_of-span is_blank s1,
      all_of-span is_blank s2,
      all_of-span is_blank s3,
      rw (← same) (all_of-span is_plain s4),
      pieces _ _ _ value s5 (expect_sound ":" _ s1 e1) (span-append is_blank s1)
          (expect_sound "Final[str]" _ s2 e2) (span-append is_blank s2) (expect_sound "=" _ s3 e3)
          (span-append is_blank s3) (expect_sound "\"" _ s4 e4)
          (ap (λ v. v ⧺ (span is_plain s4).1) (sym same) ∙ span-append is_plain s4)
          (expect_sound "\"" _ s5 e5),
    )

-- What `reFinalStr` matches, with its two groups.
abbrev pub IsFinal : String → String → String → Type 0
IsFinal line name value =
    (b1 b2 b3 tail : String) × ((name == "") ≡ false)
    × (all_of is_upper name ≡ true)
    × (all_of is_blank b1 ≡ true)
    × (all_of is_blank b2 ≡ true)
    × (all_of is_blank b3 ≡ true)
    × (all_of is_plain value ≡ true)
    × (line ≡ name ⧺ after_name b1 b2 b3 value tail)

pub some_of-append :
    (p : Char → Bool) (name t : String)
    → (name == "") ≡ false
    → all_of p name ≡ true
    → stops p t ≡ true
    → some_of p (name ⧺ t) ≡ some (name, t)
some_of-append p name t n h k = rw (span_all p name t h k, n) refl

pub final_str_complete :
    (line name value : String) → IsFinal line name value → final_str line ≡ some (name, value)
unfolding final_str ◌>>=◌
final_str_complete line name value (b1, b2, b3, tail, n, hn, h1, h2, h3, hv, e) =
    rw
      (
        e,
        some_of-append is_upper name (after_name b1 b2 b3 value tail) n hn (
            stops-append is_upper ":"
              (b1 ⧺ ("Final[str]" ⧺ (b2 ⧺ ("=" ⧺ (b3 ⧺ ("\"" ⧺ (value ⧺ ("\"" ⧺ tail)))))))) refl
              refl),
        value-append b1 b2 b3 value tail h1 h2 h3 hv,
      )
      refl

pub some_of-inverse :
    (p : Char → Bool) (line name t : String)
    → some_of p line ≡ some (name, t)
    → ((name == "") ≡ false) × (all_of p name ≡ true) × (name ⧺ t ≡ line)
some_of-inverse p line name t h = elim (Bool-cases ((span p line).0 == "")) [
  | inl e ↦
      let none_left : ◌≡◌ {A = Option (String × String)} none (some (name, t)) = rw e at h in cc
  | inr n ↦
      let whole : some (span p line) ≡ some (name, t) = rw n at h in
      let same : span p line ≡ (name, t) = cc in
      (
        ap (λ q. q.0 == "") (sym same) ∙ n,
        ap (λ q. all_of p q.0) (sym same) ∙ all_of-span p line,
        ap (λ q. q.0 ⧺ q.1) (sym same) ∙ span-append p line,
      )
]

pub final_str_sound :
    (line name value : String) → final_str line ≡ some (name, value) → IsFinal line name value
unfolding final_str
final_str_sound line name value h =
    let ((n, t), e, g) = bind-some (some_of is_upper line) _ (name, value) h in
    let (v, e', g') = bind-some (value_after_name t) _ (name, value) g in
    let same_name : n ≡ name = cc in
    let same_value : v ≡ value = cc in
    let (x, y, z) = some_of-inverse is_upper line name t (e ∙ ap (λ m. some (m, t)) same_name) in
    let (b1, b2, b3, tail, h1, h2, h3, hv, k) = value-inverse t value (e' ∙ ap some same_value) in
    (b1, b2, b3, tail, x, y, h1, h2, h3, hv, sym z ∙ ap (λ u. name ⧺ u) k)
