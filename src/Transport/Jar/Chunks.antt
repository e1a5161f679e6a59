-- ===== src/Transport/Jar/Chunks.antt =====
-- A chunked cookie is put together in the order of its indices, whatever the map's order.
use mathlib.Core.HLevel.{¬_prop}
use mathlib.Core.List.{Pairwise, rel_of_Pairwise-cons, mem-cons_self, Permᴰ}
use mathlib.Core.List.Pairwise
use mathlib.Core.List.Permᴰ
use perplexity_proxy_go.Prelude.{
  ◌<◌, ◌≡◌, ◌≢◌, refl, sym, ◌∙◌, List, [], ◌∷◌, none, String, join, map, lookup, arith,
}
use perplexity_proxy_go.Transport.Jar.{Jar, Chunk, insert_chunk, sort, chunks_of, get}

abbrev Differ : Chunk → Chunk → Type 0
Differ a b = a.idx ≢ b.idx

abbrev pub IsIncreasing : List Chunk → Type 0
IsIncreasing cs = Pairwise (λ a b. a.idx < b.idx) cs

insert_chunk_comm :
    (a b : Chunk) (cs : List Chunk)
    → Differ a b
    → insert_chunk a (insert_chunk b cs) ≡ insert_chunk b (insert_chunk a cs)
unfolding insert_chunk
insert_chunk_comm a b [] h = ground arith
insert_chunk_comm a b (c ∷ cs) h = ground (arith, insert_chunk_comm a b cs)

sort-perm : {cs ds : List Chunk} → Permᴰ cs ds → Pairwise Differ cs → sort cs ≡ sort ds
unfolding sort
sort-perm Permᴰ.nil h = refl
sort-perm (Permᴰ.cons {a} {b} {l₁} {l₂} e p) h = cc (e, sort-perm p (Pairwise.of_cons h))
sort-perm (Permᴰ.swap {a} {b} {l} e f) h =
    rw (← e, ← f) (insert_chunk_comm a b (sort l) (rel_of_Pairwise-cons h mem-cons_self))
sort-perm (Permᴰ.trans p q) h =
    sort-perm p h ∙ sort-perm q (Permᴰ.pairwise (λ a b. ¬_prop) (λ a b d e. d (sym e)) p h)

insert_chunk_first :
    (c : Chunk) (cs : List Chunk) → IsIncreasing (c ∷ cs) → insert_chunk c cs ≡ c ∷ cs
unfolding insert_chunk
insert_chunk_first c [] h = refl
insert_chunk_first c (d ∷ cs) h =
    let lt : c.idx < d.idx = rel_of_Pairwise-cons h mem-cons_self in ground arith

sort_of_IsIncreasing : (cs : List Chunk) → IsIncreasing cs → sort cs ≡ cs
unfolding sort
sort_of_IsIncreasing [] h = refl
sort_of_IsIncreasing (c ∷ cs) h =
    rw (sort_of_IsIncreasing cs (Pairwise.of_cons h)) (insert_chunk_first c cs h)

-- When no cookie has the whole name, and the chunk cookies are, in some order, `cs` of strictly
-- increasing indices, `get` is the values of `cs` one after the other.
pub get-eq-join :
    (j : Jar) (name : String) (cs : List Chunk)
    → lookup name j.cookies ≡ none
    → IsIncreasing cs
    → Permᴰ cs (chunks_of name j.cookies)
    → get j name ≡ join "" (map (λ c. c.val) cs)
unfolding get
get-eq-join j name cs absent h p =
    rw
      (
        absent,
        ← sort-perm p
            (Pairwise.imp (λ a b (lt : a.idx < b.idx) (e : a.idx ≡ b.idx). omega arith) h),
        sort_of_IsIncreasing cs h,
      )
      refl
