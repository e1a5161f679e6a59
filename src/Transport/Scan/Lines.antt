-- ===== src/Transport/Scan/Lines.antt =====
-- The lines of a text, independently of how it arrives, and what the inner loop of `scanLines`
-- does on a buffer.
use perplexity_proxy_go.Prelude.{
  ℕ, zero, suc, ◌<◌, ◌≡◌, refl, ap, ◌∙◌, List, [], ◌∷◌, Option, none, some, Bytes, length, eqb,
  if◌then◌else◌, arith, Option-cases, inl, inr,
}
use perplexity_proxy_go.Transport.Scan.{cut, OnLine, Progress, stopped, more, visit, drain}

-- The complete lines, without their newlines, and the bytes after the last newline.
abbrev pub push : ℕ → List Bytes × Bytes → List Bytes × Bytes
push b ([], rest) = ([], b ∷ rest)
push b (line ∷ lines, rest) = ((b ∷ line) ∷ lines, rest)

unfoldable pub split : Bytes → List Bytes × Bytes
split [] = ([], [])
split (b ∷ s) = if eqb b 10 then ([] ∷ (split s).0, (split s).1) else push b (split s)

-- The callback on each line in turn, up to its first error.
module _ {S : Type 0} (on_line : OnLine S) where
  unfoldable pub deliver : S → List Bytes → Bytes → Progress S
  deliver s [] rest = more s rest
  deliver s (line ∷ lines) rest =
      let (s', e) = visit on_line s line in
      elim e [ some failure ↦ stopped s' failure | none ↦ deliver s' lines rest ]

abbrev split_of_cut : Bytes → Option (Bytes × Bytes) → List Bytes × Bytes
split_of_cut s none = ([], s)
split_of_cut s (some (line, rest)) = (line ∷ (split rest).0, (split rest).1)

split-eq-cut : (s : Bytes) → split s ≡ split_of_cut s (cut s)
unfolding split cut
split-eq-cut [] = refl
split-eq-cut (b ∷ s) = ground (arith, split-eq-cut s)

cut-shorter : (s line rest : Bytes) → cut s ≡ some (line, rest) → length rest < length s
unfolding cut
cut-shorter [] line rest h = ground arith
cut-shorter (b ∷ s) line rest h = elim (Option-cases (cut s)) [
  | inl e ↦ ground arith
  | inr ((l, r), e) ↦ ground (arith, cut-shorter s l r e)
]

module _ {S : Type 0} (on_line : OnLine S) where
  -- The inner loop of `scanLines` ends by itself where the fuel is greater than the length of the
  -- buffer, and its result does not depend on the fuel: each complete line of the buffer goes to the
  -- callback in order, up to the first error, and otherwise the bytes after the last newline stay.
  pub drain-eq-deliver :
      (fuel : ℕ) (buf : Bytes) (s : S)
      → length buf < fuel
      → drain on_line fuel buf s ≡ deliver on_line s (split buf).0 (split buf).1
  unfolding drain deliver
  drain-eq-deliver zero buf s h = elim h [ ]
  drain-eq-deliver (suc fuel) buf s h = elim (Option-cases (cut buf)) [
    | inl e ↦
        let q : split buf ≡ ([], buf) = split-eq-cut buf ∙ ap (split_of_cut buf) e in
        rw (e, drain, q) refl
    | inr ((line, rest), e) ↦
        let q : split buf ≡ (line ∷ (split rest).0, (split rest).1) =
          split-eq-cut buf ∙ ap (split_of_cut buf) e in
        rw (e, drain, q)
          (ground (
            arith,
            drain-eq-deliver fuel rest (visit on_line s line).0,
            cut-shorter buf line rest e,
          ))
  ]
