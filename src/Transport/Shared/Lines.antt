-- ===== src/Transport/Shared/Lines.antt =====
-- The lines that `PostSSE` hands to its callback, against the scan of internal/transport/plain.go.
use perplexity_proxy_go.Prelude.{
  ◌≡◌, refl, sym, ◌∙◌, List, [], ◌∷◌, ◌++◌, Option, none, some, Bytes, if◌then◌else◌, Bool-cases,
  inl, inr, arith,
}
use perplexity_proxy_go.Errors.{Failure}
use perplexity_proxy_go.Transport.Space.{is_blank, trim_cr}
use perplexity_proxy_go.Transport.Scan.{OnLine, Stream, conclude, visit, finish, scan_lines}
use perplexity_proxy_go.Transport.Scan.Lines.{split, deliver}
use perplexity_proxy_go.Transport.Scan.Chunks.{text, IsOrdinary, scan_lines-eq-reference}
use perplexity_proxy_go.Transport.Sse.{settle, run_lines}

-- the lines that are not blank, without the carriage returns at their ends
unfoldable pub tidy : List Bytes → List Bytes
tidy [] = []
tidy (line ∷ lines) =
    let rest = tidy lines in if is_blank (trim_cr line) then rest else trim_cr line ∷ rest

-- the bytes after the last newline count as a line where the stream ends without an error
abbrev pub tail : Option Failure → Bytes → List Bytes
tail (some e) rest = []
tail none rest = if is_blank rest then [] else trim_cr rest ∷ []

abbrev pub lines_of : Stream → List Bytes
lines_of r = tidy (split (text r)).0 ++ tail r.ending (split (text r)).1

module _ {S : Type 0} (on_line : OnLine S) where
  settle-none : (r : S × Option Failure) → settle r (λ s. (s, none)) ≡ r
  settle-none (s, none) = refl
  settle-none (s, some e) = refl

  finish-eq-run_lines :
      (s : S) (rest : Bytes) (ending : Option Failure)
      → finish on_line ending s rest ≡ run_lines on_line s (tail ending rest) ending
  unfolding finish run_lines
  finish-eq-run_lines s rest (some e) = refl
  finish-eq-run_lines s rest none = elim (Bool-cases (is_blank rest)) [
    | inl blank ↦ rw blank refl
    | inr full ↦ rw full (sym (settle-none (on_line s (trim_cr rest))))
  ]

  deliver-cons :
      (s : S) (line : Bytes) (lines : List Bytes) (rest : Bytes)
      (k : S → Bytes → S × Option Failure)
      → conclude (deliver on_line s (line ∷ lines) rest) k
        ≡ settle (visit on_line s line) (λ s'. conclude (deliver on_line s' lines rest) k)
  unfolding deliver
  deliver-cons s line lines rest k = ground arith

  settle-same :
      (r : S × Option Failure) (k m : S → S × Option Failure)
      → ((s : S) → k s ≡ m s)
      → settle r k ≡ settle r m
  settle-same (s, none) k m h = h s
  settle-same (s, some e) k m h = refl

  visit-eq-run_lines :
      (s : S) (line : Bytes) (k : S → S × Option Failure) (lines more : List Bytes)
      (ending : Option Failure)
      → ((s : S) → k s ≡ run_lines on_line s (lines ++ more) ending)
      → settle (visit on_line s line) k
        ≡ run_lines on_line s
            ((if is_blank (trim_cr line) then lines else trim_cr line ∷ lines) ++ more)
            ending
  unfolding visit run_lines
  visit-eq-run_lines s line k lines more ending h = elim (Bool-cases (is_blank (trim_cr line))) [
    | inl blank ↦ rw blank (h s)
    | inr full ↦ rw full (
        settle-same (on_line s (trim_cr line)) k (λ s'. run_lines on_line s' (lines ++ more) ending)
          h)
  ]

  deliver-eq-run_lines :
      (s : S) (lines : List Bytes) (rest : Bytes) (ending : Option Failure)
      → conclude (deliver on_line s lines rest) (finish on_line ending)
        ≡ run_lines on_line s (tidy lines ++ tail ending rest) ending
  unfolding tidy run_lines
  deliver-eq-run_lines s [] rest ending = unfold deliver in finish-eq-run_lines s rest ending
  deliver-eq-run_lines s (line ∷ lines) rest ending =
      deliver-cons s line lines rest (finish on_line ending)
      ∙ visit-eq-run_lines s line
          (λ s'. conclude (deliver on_line s' lines rest) (finish on_line ending)) (tidy lines)
          (tail ending rest) ending (λ s'. deliver-eq-run_lines s' lines rest ending)

  pub scan_lines-eq-run_lines :
      (s : S) (r : Stream)
      → IsOrdinary r
      → scan_lines on_line s r ≡ run_lines on_line s (lines_of r) r.ending
  scan_lines-eq-run_lines s r o =
      scan_lines-eq-reference on_line s r o
      ∙ deliver-eq-run_lines s (split (text r)).0 (split (text r)).1 r.ending
