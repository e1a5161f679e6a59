-- ===== src/Pplx/Sse/Stream.antt =====
-- Streams of frames: the deltas that a client sees, and what the fold over a stream keeps.
use perplexity_proxy_go.Prelude.{
  true, not, ◌≡◌, ◌==◌, Bool-cases, inl, inr, refl, sym, ap, ◌∙◌, List, [], ◌∷◌, ◌++◌, Option, none,
  some, String, join, if◌then◌else◌, arith,
}
use mathlib.Core.List.{append-nil, append_assoc}
use perplexity_proxy_go.Errors.{Failure}
use perplexity_proxy_go.Json.{str, arr, obj, Fields, end, field, nil, cons, Values, elems, Codec}
use perplexity_proxy_go.Pplx.Sse.{
  State, start, is_nil, absorb_answer_data, emit_chunk_deltas, absorb_blocks, identify,
  process_data,
}
use perplexity_proxy_go.Pplx.Frame.{strings_of}

abbrev texts : List String → Values
texts [] = nil
texts (c ∷ cs) = cons (str c) (texts cs)

-- What the server sends of an answer in a frame: its progress, chunks, and perhaps a whole answer.
pub record Sent : Type 0 where
  pub progress : String
  pub chunks : List String
  pub answer : Option String

abbrev answer_field : Option String → Fields
answer_field none = end
answer_field (some a) = field "answer" (str a) end

abbrev markdown : Sent → Fields
markdown s =
    field "progress" (str s.progress)
      (field "chunks" (arr (texts s.chunks)) (answer_field s.answer))

-- the frame, as the server sends it
abbrev pub frame_of : Sent → Fields
frame_of s =
    field "blocks"
      (arr (
        cons
          (obj (
            field "intended_usage" (str "ask_text")
              (field "markdown_block" (obj (markdown s)) end)))
          nil))
      end

abbrev carry_on : State × Option Failure → (State → State × Option Failure) → State × Option Failure
carry_on (s, some failure) k = (s, some failure)
carry_on (s, none) k = k s

-- the frames in turn, up to the first error
unfoldable pub process_all : Codec → List Fields → State → State × Option Failure
process_all codec [] s = (s, none)
process_all codec (d ∷ ds) s = carry_on (process_data codec d s) (λ t. process_all codec ds t)

abbrev pub frames_of : List Sent → List Fields
frames_of [] = []
frames_of (s ∷ ss) = frame_of s ∷ frames_of ss

-- the chunks that are not a repetition of earlier ones
abbrev pub deltas : List Sent → List String
deltas [] = []
deltas (s ∷ ss) = if s.progress == "IN_PROGRESS" then s.chunks ++ deltas ss else deltas ss

-- the text after a frame, of all chunks so far: the frame's answer, or else the chunks, if there are any
abbrev pub text_of : Option String → List String → String → String
text_of (some a) all before = a
text_of none [] before = before
text_of none (c ∷ cs) before = join "" (c ∷ cs)

-- the text after frames, with the chunks and the text before them
abbrev pub text_after : List String → String → List Sent → String
text_after all before [] = before
text_after all before (s ∷ ss) =
    text_after (all ++ s.chunks) (text_of s.answer (all ++ s.chunks) before) ss

strings_of-texts : (cs : List String) → strings_of (elems (texts cs)) ≡ cs
unfolding strings_of
strings_of-texts [] = refl
strings_of-texts (c ∷ cs) = ap (λ ds. c ∷ ds) (strings_of-texts cs)

abbrev emitted_by : Sent → List String
emitted_by s = if s.progress == "IN_PROGRESS" then s.chunks else []

abbrev shown : Sent → State → State
shown x s = record s {
  chunks = s.chunks ++ x.chunks;
  answer = text_of x.answer (s.chunks ++ x.chunks) s.answer;
  emitted = s.emitted ++ emitted_by x;
}

emit-markdown :
    (x : Sent) (s : State)
    → s.on_chunk ≡ true
    → emit_chunk_deltas (markdown x) s ≡ record s { emitted = s.emitted ++ emitted_by x }
unfolding emit_chunk_deltas
emit-markdown x s h = elim (Bool-cases (x.progress == "IN_PROGRESS")) [
  | inl p ↦ rw (h, p, strings_of-texts x.chunks) refl
  | inr p ↦ rw (h, p, append-nil s.emitted) refl
]

running :
    (all : List String) (answer : String)
    → (if not (is_nil all) then join "" all else answer) ≡ text_of none all answer
running [] answer = refl
running (c ∷ cs) answer = refl

absorb-parts :
    (progress : String) (cs : List String) (a : Option String) (s : State)
    → absorb_answer_data
        (field "progress" (str progress) (field "chunks" (arr (texts cs)) (answer_field a)))
        s
      ≡ record s { chunks = s.chunks ++ cs; answer = text_of a (s.chunks ++ cs) s.answer }
unfolding absorb_answer_data
absorb-parts progress cs (some a) s = rw (strings_of-texts cs) refl
absorb-parts progress cs none s =
    rw (strings_of-texts cs) (
      ap (λ a. record s { chunks = s.chunks ++ cs; answer = a })
        (running (s.chunks ++ cs) s.answer))

absorb-markdown :
    (x : Sent) (s : State)
    → absorb_answer_data (markdown x) s ≡ record s {
      chunks = s.chunks ++ x.chunks;
      answer = text_of x.answer (s.chunks ++ x.chunks) s.answer;
    }
absorb-markdown x s = absorb-parts x.progress x.chunks x.answer s

identify-frame_of : (x : Sent) (s : State) → identify (frame_of x) s ≡ s
unfolding identify
identify-frame_of x s = ground arith

process_data-frame_of :
    (codec : Codec) (x : Sent) (s : State)
    → s.on_chunk ≡ true
    → process_data codec (frame_of x) s ≡ (shown x s, none)
process_data-frame_of codec x s h =
    unfold process_data absorb_blocks in
    rw (identify-frame_of x s, emit-markdown x s h)
      (ap (λ t. (t, none)) (absorb-markdown x (record s { emitted = s.emitted ++ emitted_by x })))

emitted_by-deltas :
    (x : Sent) (xs : List Sent) (old : List String)
    → (old ++ emitted_by x) ++ deltas xs ≡ old ++ deltas (x ∷ xs)
emitted_by-deltas x xs old = elim (Bool-cases (x.progress == "IN_PROGRESS")) [
  | inl p ↦ rw p (append_assoc old x.chunks (deltas xs))
  | inr p ↦ rw p (ap (λ l. l ++ deltas xs) (append-nil old))
]

process_all-shown :
    (codec : Codec) (xs : List Sent) (s : State)
    → s.on_chunk ≡ true
    → (t : State) × (process_all codec (frames_of xs) s ≡ (t, none))
      × (t.emitted ≡ s.emitted ++ deltas xs)
      × (t.answer ≡ text_after s.chunks s.answer xs)
unfolding process_all
process_all-shown codec [] s h = (s, refl, sym (append-nil s.emitted), refl)
process_all-shown codec (x ∷ xs) s h =
    let (t, e, k, c) = process_all-shown codec xs (shown x s) h in
    (
      t,
      ap (λ r. carry_on r (λ u. process_all codec (frames_of xs) u))
            (process_data-frame_of codec x s h)
          ∙ e,
      k ∙ emitted_by-deltas x xs s.emitted,
      c,
    )

-- A client that streams gets each chunk of the frames in progress once and in order, and none of the
-- chunks of other frames, such as the last one that repeats them all, however the frames follow each
-- other. The answer is that of the last frame with an answer, until a later frame with none makes it
-- all chunks so far, joined. No such frame ends the stream.
pub process_all-frames_of :
    (codec : Codec) (xs : List Sent)
    → (t : State) × (process_all codec (frames_of xs) (start true) ≡ (t, none))
      × (t.emitted ≡ deltas xs)
      × (t.answer ≡ text_after [] "" xs)
process_all-frames_of codec xs = process_all-shown codec xs (start true) refl
