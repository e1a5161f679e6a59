-- ===== src/Transport/Scan/Split.antt =====
-- How the lines of a text grow as bytes arrive at its end.
use perplexity_proxy_go.Prelude.{
  ℕ, suc, ◌≤◌, ◌≡◌, refl, false, List, [], ◌∷◌, ◌++◌, Bytes, length, Bool-cases, inl, inr, All,
  All-append_right, eqb, arith,
}
use perplexity_proxy_go.Transport.Scan.Lines.{push, split}

-- no newline
abbrev pub IsPartial : Bytes → Type 0
IsPartial buf = All (λ c. eqb c 10 ≡ false) buf

pub split_of_IsPartial : (buf : Bytes) → IsPartial buf → split buf ≡ ([], buf)
unfolding split
split_of_IsPartial [] h = refl
split_of_IsPartial (b ∷ buf) (p, h) = rw (p, split_of_IsPartial buf h) refl

push-IsPartial :
    (b : ℕ) (p : List Bytes × Bytes) → eqb b 10 ≡ false → IsPartial p.1 → IsPartial (push b p).1
push-IsPartial b ([], rest) e h = (e, h)
push-IsPartial b (line ∷ lines, rest) e h = h

pub split-IsPartial : (s : Bytes) → IsPartial (split s).1
unfolding split
split-IsPartial [] = tt
split-IsPartial (b ∷ s) = elim (Bool-cases (eqb b 10)) [
  | inl e ↦ rw e (split-IsPartial s)
  | inr e ↦ rw e (push-IsPartial b (split s) e (split-IsPartial s))
]

-- Appending to what has been split: only the last, partial line goes on.
abbrev pub extend : List Bytes × Bytes → Bytes → List Bytes × Bytes
extend p t = (p.0 ++ (split (p.1 ++ t)).0, (split (p.1 ++ t)).1)

extend-push :
    (b : ℕ) (p : List Bytes × Bytes) (t : Bytes)
    → eqb b 10 ≡ false
    → push b (extend p t) ≡ extend (push b p) t
unfolding split
extend-push b ([], rest) t e = rw e refl
extend-push b (line ∷ lines, rest) t e = refl

pub split-append : (s t : Bytes) → split (s ++ t) ≡ extend (split s) t
unfolding split
split-append [] t = refl
split-append (b ∷ s) t = elim (Bool-cases (eqb b 10)) [
  | inl e ↦ rw (e, split-append s t) refl
  | inr e ↦ rw (e, split-append s t) (extend-push b (split s) t e)
]

pub first_length : List Bytes × Bytes → ℕ
first_length ([], rest) = length rest
first_length (line ∷ lines, rest) = length line

first_length-push :
    (b : ℕ) (p : List Bytes × Bytes) → first_length (push b p) ≡ suc (first_length p)
unfolding first_length
first_length-push b ([], rest) = refl
first_length-push b (line ∷ lines, rest) = refl

pub length-le-first_length :
    (buf t : Bytes) → IsPartial buf → length buf ≤ first_length (split (buf ++ t))
unfolding split
length-le-first_length [] t h = omega arith
length-le-first_length (b ∷ buf) t (p, h) =
    rw (p, first_length-push) (omega (arith, length-le-first_length buf t h))

-- Every line and the partial line at the end have `n` bytes at most.
abbrev pub Fits : ℕ → List Bytes × Bytes → Type 0
Fits n p = All (λ line. length line ≤ n) p.0 × (length p.1 ≤ n)

pub first_length-le : (n : ℕ) (p : List Bytes × Bytes) → Fits n p → first_length p ≤ n
unfolding first_length
first_length-le n ([], rest) (h, k) = k
first_length-le n (line ∷ lines, rest) ((j, h), k) = j

pub Fits-extend :
    (n : ℕ) (p : List Bytes × Bytes) (t : Bytes) → Fits n (extend p t) → Fits n (split (p.1 ++ t))
Fits-extend n p t (h, k) = (All-append_right _ p.0 _ h, k)
