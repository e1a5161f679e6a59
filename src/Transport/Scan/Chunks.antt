-- ===== src/Transport/Scan/Chunks.antt =====
-- What `scanLines` does depends on the text that arrives and not on how the network cuts it, as
-- long as no line comes within one Read of the limit.
use mathlib.Core.Path.{subst}
use mathlib.Core.List.{append_assoc, append-nil}
use perplexity_proxy_go.Prelude.{
  ℕ, ◌-◌, ◌≤◌, ◌≡◌, refl, sym, ap, ◌∙◌, List, [], ◌∷◌, ◌++◌, Option, Bytes, length, length-append,
  concat, All, arith, le→not-ltb,
}
use perplexity_proxy_go.Errors.{Failure}
use perplexity_proxy_go.Transport.Scan.{
  OnLine, Stream, max_sse_line, chunk_size, conclude, visit, absorb, finish, scan_from, scan_lines,
}
use perplexity_proxy_go.Transport.Scan.Lines.{split, deliver, drain-eq-deliver}
use perplexity_proxy_go.Transport.Scan.Split.{
  IsPartial, split_of_IsPartial, split-IsPartial, extend, split-append, length-le-first_length,
  Fits, first_length-le, Fits-extend,
}

abbrev pub max_line : ℕ
max_line = max_sse_line - chunk_size

-- All that a stream brings before its end.
abbrev pub text : Stream → Bytes
text r = concat r.chunks ++ r.last

pub record IsOrdinary (r : Stream) : Type 0 where
  pub reads : All (λ c. length c ≤ chunk_size) r.chunks
  pub last : length r.last ≤ chunk_size
  pub lines : Fits max_line (split (text r))

module _ {S : Type 0} (on_line : OnLine S) where
  -- The lines of the whole text, one after the other, then what comes after the last newline.
  abbrev pub reference : S → Bytes → Option Failure → S × Option Failure
  reference s whole ending =
      conclude (deliver on_line s (split whole).0 (split whole).1) (finish on_line ending)

  deliver-append :
      (s : S) (ls ms : List Bytes) (r rest : Bytes) (k : S → Bytes → S × Option Failure)
      → conclude (deliver on_line s (ls ++ ms) rest) k
        ≡ conclude (deliver on_line s ls r) (λ s' _. conclude (deliver on_line s' ms rest) k)
  unfolding deliver
  deliver-append s [] ms r rest k = refl
  deliver-append s (l ∷ ls) ms r rest k =
      ground (arith, deliver-append (visit on_line s l).0 ls ms r rest k)

  conclude-deliver :
      (s : S) (ls : List Bytes) (r : Bytes) (k m : S → Bytes → S × Option Failure)
      → ((s' : S) → k s' r ≡ m s' r)
      → conclude (deliver on_line s ls r) k ≡ conclude (deliver on_line s ls r) m
  unfolding deliver
  conclude-deliver s [] r k m h = h s
  conclude-deliver s (l ∷ ls) r k m h =
      ground (arith, conclude-deliver (visit on_line s l).0 ls r k m h)

  absorb-eq-deliver :
      (buf : Bytes) (s : S) (chunk : Bytes)
      → IsPartial buf
      → length buf ≤ max_line
      → length chunk ≤ chunk_size
      → absorb on_line buf s chunk
        ≡ deliver on_line s (split (buf ++ chunk)).0 (split (buf ++ chunk)).1
  unfolding absorb
  absorb-eq-deliver buf s [] h j k =
      rw (append-nil, split_of_IsPartial buf h) (unfold deliver in refl)
  absorb-eq-deliver buf s (b ∷ chunk) h j k =
      rw
        (le→not-ltb max_sse_line (length (buf ++ b ∷ chunk))
          (omega (arith, length-append buf (b ∷ chunk))))
        (drain-eq-deliver on_line _ (buf ++ b ∷ chunk) s (omega arith))

  pending-fits :
      (buf t : Bytes) → IsPartial buf → Fits max_line (split (buf ++ t)) → length buf ≤ max_line
  pending-fits buf t h f =
      omega (arith, length-le-first_length buf t h, first_length-le max_line (split (buf ++ t)) f)

  scan_from-eq-reference :
      (buf : Bytes) (s : S) (chunks : List Bytes) (last : Bytes) (ending : Option Failure)
      → IsPartial buf
      → All (λ c. length c ≤ chunk_size) chunks
      → length last ≤ chunk_size
      → Fits max_line (split (buf ++ (concat chunks ++ last)))
      → scan_from on_line buf s chunks last ending
        ≡ reference s (buf ++ (concat chunks ++ last)) ending
  unfolding scan_from
  scan_from-eq-reference buf s [] last ending h reads k f =
      rw (absorb-eq-deliver buf s last h (pending-fits buf last h f) k) refl
  scan_from-eq-reference buf s (c ∷ chunks) last ending h (r, reads) k f =
      let A = buf ++ c in
      let B = concat chunks ++ last in
      let regroup : buf ++ ((c ++ concat chunks) ++ last) ≡ A ++ B =
        ap (λ t. buf ++ t) (append_assoc c (concat chunks) last) ∙ sym (append_assoc buf c B) in
      let splits : split (buf ++ ((c ++ concat chunks) ++ last)) ≡ extend (split A) B =
        ap split regroup ∙ split-append A B in
      let fits : Fits max_line (extend (split A) B) = subst (Fits max_line) splits f in
      let ih = λ (s' : S).
        scan_from-eq-reference (split A).1 s' chunks last ending (split-IsPartial A) reads k
          (Fits-extend max_line (split A) B fits) in
      rw (absorb-eq-deliver buf s c h (pending-fits buf _ h f) r) (
        conclude-deliver s (split A).0 (split A).1 _
          (λ s' _. reference s' ((split A).1 ++ B) ending) ih
        ∙ sym (
            deliver-append s (split A).0 (split ((split A).1 ++ B)).0 (split A).1
              (split ((split A).1 ++ B)).1 (finish on_line ending))
        ∙ sym (ap (λ p. conclude (deliver on_line s p.0 p.1) (finish on_line ending)) splits))

  -- For a stream whose Reads fill their buffer at most, and whose lines stay one such buffer below
  -- the limit: `scanLines` calls back on the non-blank lines of the whole text in order, up to the
  -- first error, and then on the bytes after the last newline, however the text is cut into Reads.
  pub scan_lines-eq-reference :
      (s : S) (r : Stream) → IsOrdinary r → scan_lines on_line s r ≡ reference s (text r) r.ending
  unfolding scan_lines
  scan_lines-eq-reference s r h =
      scan_from-eq-reference [] s r.chunks r.last r.ending tt h.reads h.last h.lines
