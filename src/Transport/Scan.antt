-- ===== src/Transport/Scan.antt =====
-- `scanLines` of internal/transport/plain.go. A reader is the list of the byte runs that its calls
-- of Read return, then the last one, which comes with io.EOF (`none`) or with another error.
pub mod Lines
pub mod Split
pub mod Chunks
use perplexity_proxy_go.Prelude.{
  ℕ, zero, suc, List, [], ◌∷◌, ◌++◌, Option, none, some, Bytes, length, ltb, eqb, if◌then◌else◌,
}
use perplexity_proxy_go.Errors.{Failure, plain}
use perplexity_proxy_go.Transport.Space.{is_blank, trim_cr}

pub record Stream : Type 0 where
  pub chunks : List Bytes
  pub last : Bytes
  pub ending : Option Failure

-- `maxSSELine`, and the size of the array that Read fills
abbrev pub max_sse_line : ℕ
max_sse_line = 16777216

abbrev pub chunk_size : ℕ
chunk_size = 32768

abbrev pub too_long : Failure
too_long = plain "SSE line exceeds 16777216 bytes"

-- `onLine`, over the state that it captures
abbrev pub OnLine : Type 0 → Type 0
OnLine S = S → Bytes → S × Option Failure

-- `bytes.IndexByte(buf, '\n')`, with the bytes before the newline and those after it
cut_after : ℕ → Option (Bytes × Bytes) → Option (Bytes × Bytes)
cut_after b none = none
cut_after b (some (line, rest)) = some (b ∷ line, rest)

unfoldable pub cut : Bytes → Option (Bytes × Bytes)
unfolding cut_after
cut [] = none
cut (b ∷ buf) = let later = cut_after b (cut buf) in if eqb b 10 then some ([], buf) else later

-- The loops either return an error, or go on with what is left in `buf`.
pub data Progress (S : Type 0) : Type 0 where
  stopped : S → Failure → Progress S
  more : S → Bytes → Progress S

-- An error returns from `scanLines`; otherwise it goes on as `k` says.
abbrev pub conclude :
    {S : Type 0} → Progress S → (S → Bytes → S × Option Failure) → S × Option Failure
conclude (stopped s failure) k = (s, some failure)
conclude (more s rest) k = k s rest

module _ {S : Type 0} (on_line : OnLine S) where
  -- the body of the inner loop
  unfoldable pub visit : S → Bytes → S × Option Failure
  visit s before = if is_blank (trim_cr before) then (s, none) else on_line s (trim_cr before)

  -- the inner loop; each round takes a byte off at least, so `length buf` rounds are enough
  unfoldable pub drain : ℕ → Bytes → S → Progress S
  drain zero buf s = more s buf
  drain (suc fuel) buf s = elim (cut buf) [
    | none ↦ more s buf
    | some (before, after) ↦
        let (s', e) = visit s before in
        elim e [ some failure ↦ stopped s' failure | none ↦ drain fuel after s' ]
  ]

  -- `if n > 0 { … }` of the outer loop
  unfoldable pub absorb : Bytes → S → Bytes → Progress S
  absorb buf s [] = more s buf
  absorb buf s (b ∷ chunk) =
      let whole = buf ++ b ∷ chunk in
      if ltb max_sse_line (length whole)
      then stopped s too_long
      else drain (suc (length whole)) whole s

  -- what comes after the last Read
  unfoldable pub finish : Option Failure → S → Bytes → S × Option Failure
  finish (some failure) s buf = (s, some failure)
  finish none s buf = if is_blank buf then (s, none) else on_line s (trim_cr buf)

  unfoldable pub scan_from : Bytes → S → List Bytes → Bytes → Option Failure → S × Option Failure
  scan_from buf s [] last ending = conclude (absorb buf s last) (finish ending)
  scan_from buf s (chunk ∷ chunks) last ending =
      conclude (absorb buf s chunk) (λ s' buf'. scan_from buf' s' chunks last ending)

  unfoldable pub scan_lines : S → Stream → S × Option Failure
  scan_lines s r = scan_from [] s r.chunks r.last r.ending
