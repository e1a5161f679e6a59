-- ===== src/Api/Events/Tokens.antt =====
-- The token estimate is a quarter of the bytes, but never 0 for a text.
use Prim.Native.String.{len}
use Prim.Native.String.len
use text.Mathlib.TextPositions.{len_utf8-pos}
use perplexity_proxy_go.Prelude.{
  ap, ◌+◌, ◌*◌, ◌≤◌, ◌<◌, false, refl, ◌≡◌, ◌≢◌, ◌⊎◌, inl, inr, String, ◌==◌, ltb, ltb→lt,
  Bool-cases, eq_iff, arith,
}
use perplexity_proxy_go.Api.Events.{estimate_tokens}

len-pos : (s : String) → s ≢ "" → 0 < len s
len-pos String.[] h = absurd (h refl)
len-pos (String.◌∷◌ c s) h = rw (len.cons c s) (let (k, e) = len_utf8-pos c in omega (arith, e))

-- A text counts as no token if it is empty, as one if it has one to three bytes, and otherwise as a
-- quarter of its bytes, rounded down: four bytes for each token are no more than its bytes, and four
-- for each and four more are more.
pub estimate_tokens_bounds :
    (s : String)
    → ((s ≡ "") × (estimate_tokens s ≡ 0))
      ⊎ ((1 ≤ len s) × (len s < 4) × (estimate_tokens s ≡ 1))
      ⊎ ((4 ≤ len s) × (4 * estimate_tokens s ≤ len s) × (len s < 4 * estimate_tokens s + 4))
unfolding estimate_tokens
estimate_tokens_bounds s = elim (Bool-cases (s == "")) [
  | inl e ↦ inl ((eq_iff s "").0 e, ap estimate_tokens ((eq_iff s "").0 e))
  | inr n ↦
      let some_bytes = len-pos s (λ e. let full : ("" == "") ≡ false = rw e at n in cc) in
      elim (Bool-cases (ltb (len s) 4)) [
        | inl short ↦ inr (inl (omega (arith, some_bytes), ltb→lt (len s) 4 short, ground arith))
        | inr long ↦ inr (inr (ground arith, ground (arith, n), ground (arith, n)))
      ]
]
