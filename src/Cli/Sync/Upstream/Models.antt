-- ===== src/Cli/Sync/Upstream/Models.antt =====
-- The parser `model_identifier` and the regular expression `reModel` of cmd/pplx/commands_spec.go.
use text.Mathlib.TextLemmas.{cons-append, nil-append}
use perplexity_proxy_go.Prelude.{
  Char, Bool, true, false, ◌≡◌, refl, ap, ◌∙◌, some, String, ◌⧺◌, ◌==◌, Bool-cases, inl, inr, arith,
}
use perplexity_proxy_go.Cli.Sync.Upstream.Class.{
  all_of, stops, stops-append, span-append, all_of-span, span_all, expect_sound, expect-append,
  bind-some,
}
use perplexity_proxy_go.Cli.Sync.Upstream.Regex.{some_of-append, some_of-inverse}
use perplexity_proxy_go.Cli.Sync.Upstream.{
  ◌>>=◌, is_blank, is_plain, is_word, span, expect, some_of, mode_or_nothing, model_identifier,
}
use perplexity_proxy_go.Cli.Sync.Upstream.Mode.{IsClosed, IsClosed-complete, IsClosed-sound}

abbrev model_line : (b0 name b1 b2 identifier rest : String) → String
model_line b0 name b1 b2 identifier rest =
    b0 ⧺ (name ⧺ (b1 ⧺ ("=" ⧺ (b2 ⧺ ("Model(identifier=\"" ⧺ (identifier ⧺ ("\"" ⧺ rest)))))))

-- What `reModel` matches, with its second group.
abbrev pub IsModel : String → String → Type 0
IsModel line identifier =
    (b0 name b1 b2 rest : String) × ((name == "") ≡ false)
    × ((identifier == "") ≡ false)
    × (all_of is_blank b0 ≡ true)
    × (all_of is_word name ≡ true)
    × (all_of is_blank b1 ≡ true)
    × (all_of is_blank b2 ≡ true)
    × (all_of is_plain identifier ≡ true)
    × (line ≡ model_line b0 name b1 b2 identifier rest)
    × IsClosed rest

blank_no_word : (c : Char) → is_blank c ≡ true → is_word c ≡ false
blank_no_word c h = ground arith

-- a text of a class begins outside of a disjoint one
stops-class :
    (p q : Char → Bool) (s t : String)
    → ((c : Char) → p c ≡ true → q c ≡ false)
    → all_of p s ≡ true
    → stops q t ≡ true
    → stops q (s ⧺ t) ≡ true
stops-class p q String.[] t d h k = rw nil-append k
stops-class p q (String.◌∷◌ c s) t d h k =
    let first : p c ≡ true = ground arith in rw (cons-append, d c first) refl

stops-some :
    (p q : Char → Bool) (s t : String)
    → ((c : Char) → q c ≡ true → p c ≡ false)
    → (s == "") ≡ false
    → all_of p s ≡ true
    → stops q (s ⧺ t) ≡ true
stops-some p q String.[] t d n h = absurd cc
stops-some p q (String.◌∷◌ c s) t d n h =
    let first : p c ≡ true = ground arith in
    rw cons-append (elim (Bool-cases (q c)) [
      | inl both ↦ let out : p c ≡ false = d c both in absurd cc
      | inr apart ↦ rw apart refl
    ])

model_pieces :
    (b0 name b1 b2 identifier rest : String) {s t0 s1 t1 s2 t2 s3 s4 : String}
    → b0 ⧺ t0 ≡ s
    → name ⧺ s1 ≡ t0
    → b1 ⧺ t1 ≡ s1
    → "=" ⧺ s2 ≡ t1
    → b2 ⧺ t2 ≡ s2
    → "Model(identifier=\"" ⧺ s3 ≡ t2
    → identifier ⧺ s4 ≡ s3
    → "\"" ⧺ rest ≡ s4
    → s ≡ model_line b0 name b1 b2 identifier rest
model_pieces b0 name b1 b2 identifier rest e1 e2 e3 e4 e5 e6 e7 e8 =
    rw (← e1, ← e2, ← e3, ← e4, ← e5, ← e6, ← e7, ← e8) refl

pub model_identifier_sound :
    (line identifier : String) → model_identifier line ≡ some identifier → IsModel line identifier
unfolding model_identifier
model_identifier_sound line identifier h =
    let ((name, s1), e1, g1) = bind-some (some_of is_word (span is_blank line).1) _ identifier h in
    let (s2, e2, g2) = bind-some (expect "=" (span is_blank s1).1) _ identifier g1 in
    let (s3, e3, g3) =
      bind-some (expect "Model(identifier=\"" (span is_blank s2).1) _ identifier g2 in
    let ((i, s4), e4, g4) = bind-some (some_of is_plain s3) _ identifier g3 in
    let (s5, e5, g5) = bind-some (expect "\"" s4) _ identifier g4 in
    let (s6, e6, g6) = bind-some (expect ")" (mode_or_nothing s5)) _ identifier g5 in
    let same : i ≡ identifier = cc in
    let (n, hn, w) = some_of-inverse is_word _ name s1 e1 in
    let (m, hm, v) = some_of-inverse is_plain s3 identifier s4 (e4 ∙ ap (λ j. some (j, s4)) same) in
    (
      (span is_blank line).0,
      name,
      (span is_blank s1).0,
      (span is_blank s2).0,
      s5,
      n,
      m,
      all_of-span is_blank line,
      hn,
      all_of-span is_blank s1,
      all_of-span is_blank s2,
      hm,
      model_pieces _ name _ _ identifier s5 (span-append is_blank line) w (span-append is_blank s1)
          (expect_sound "=" _ s2 e2) (span-append is_blank s2)
          (expect_sound "Model(identifier=\"" _ s3 e3) v (expect_sound "\"" _ s5 e5),
      IsClosed-sound s5 s6 e6,
    )

pub model_identifier_complete :
    (line identifier : String) → IsModel line identifier → model_identifier line ≡ some identifier
unfolding model_identifier ◌>>=◌
model_identifier_complete line identifier (b0, name, b1, b2, rest, n, m, h0, hn, h1, h2, hm, e, c) =
    let s4 = "\"" ⧺ rest in
    let s3 = "Model(identifier=\"" ⧺ (identifier ⧺ s4) in
    let s2 = "=" ⧺ (b2 ⧺ s3) in
    let (tail, closed) = IsClosed-complete rest c in
    rw
      (
        e,
        span_all is_blank b0 (name ⧺ (b1 ⧺ s2)) h0
            (stops-some is_word is_blank name (b1 ⧺ s2) blank_no_word n hn),
        some_of-append is_word name (b1 ⧺ s2) n hn (
            stops-class is_blank is_word b1 s2 blank_no_word h1
              (stops-append is_word "=" (b2 ⧺ s3) refl refl)),
        span_all is_blank b1 s2 h1 (stops-append is_blank "=" (b2 ⧺ s3) refl refl),
        expect-append "=" (b2 ⧺ s3),
        span_all is_blank b2 s3 h2
            (stops-append is_blank "Model(identifier=\"" (identifier ⧺ s4) refl refl),
        expect-append "Model(identifier=\"" (identifier ⧺ s4),
        some_of-append is_plain identifier s4 m hm (stops-append is_plain "\"" rest refl refl),
        expect-append "\"" rest,
        closed,
      )
      refl
