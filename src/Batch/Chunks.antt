-- ===== src/Batch/Chunks.antt =====
-- batch.ts, `chunk`: it splits the batch in order, and every file fits the flash window.
use mog_jit.Prelude.{
  sym, subst, some, ℕ, ◌+◌, ◌<◌, ◌≤◌, ◌≡◌, refl, arith, List, [], ◌∷◌, ◌++◌, append_assoc,
  append-nil, length, All, ◌⊎◌, true, false, Bool-cases, inl, inr,
}
use mog_jit.Batch.{BatchEntry, need, overflows, chunk_from, chunk, batch_limit, write_batch}
use mog_jit.Batch.Layout.{Servable, size_of, length-write_batch, read_batch-write_batch}
use mog_jit.Batch.Reader.{read_batch}

abbrev pub joined : List (List BatchEntry) → List BatchEntry
joined [] = []
joined (c ∷ cs) = c ++ joined cs

-- What the loop adds to `bytes`, over the header's 8.
size_of-snoc : (c : List BatchEntry) (e : BatchEntry) → size_of (c ++ (e ∷ [])) ≡ size_of c + need e
unfolding size_of
size_of-snoc [] e = omega arith
size_of-snoc (x ∷ c) e = omega (arith, size_of-snoc c e)

-- The two ways that the loop goes on.
chunk_from-flush :
    (e : BatchEntry) (es current : List BatchEntry) (bytes : ℕ)
    → overflows current (bytes + need e) ≡ true
    → chunk_from (e ∷ es) current bytes ≡ current ∷ chunk_from es (e ∷ []) (8 + need e)
unfolding chunk_from
chunk_from-flush e es current bytes h = rw (h, chunk_from) refl

chunk_from-keep :
    (e : BatchEntry) (es current : List BatchEntry) (bytes : ℕ)
    → overflows current (bytes + need e) ≡ false
    → chunk_from (e ∷ es) current bytes ≡ chunk_from es (current ++ (e ∷ [])) (bytes + need e)
unfolding chunk_from
chunk_from-keep e es current bytes h = rw (h, chunk_from) refl

joined-last :
    (current : List BatchEntry) (bytes : ℕ) → joined (chunk_from [] current bytes) ≡ current
unfolding chunk_from
joined-last [] bytes = refl
joined-last (c ∷ cs) bytes = append-nil (c ∷ cs)

joined-chunk_from :
    (es current : List BatchEntry) (bytes : ℕ)
    → joined (chunk_from es current bytes) ≡ current ++ es
joined-chunk_from [] current bytes = rw (append-nil current) (joined-last current bytes)
joined-chunk_from (e ∷ es) current bytes = elim (Bool-cases (overflows current (bytes + need e))) [
  | inl h ↦
      rw (chunk_from-flush e es current bytes h, joined-chunk_from es (e ∷ []) (8 + need e)) refl
  | inr h ↦
      rw
        (
          chunk_from-keep e es current bytes h,
          joined-chunk_from es (current ++ (e ∷ [])) (bytes + need e),
          append_assoc current (e ∷ []) es,
        )
        refl
]

-- What is collected so far passes the limit only where it is a single entry.
abbrev pub WithinLimit : List BatchEntry → Type 0
WithinLimit c = (size_of c ≤ batch_limit) ⊎ (length c ≡ 1)

abbrev pub IsChunk : List BatchEntry → Type 0
IsChunk c = (0 < length c) × WithinLimit c

last-IsChunk :
    (current : List BatchEntry) (bytes : ℕ)
    → WithinLimit current
    → All IsChunk (chunk_from [] current bytes)
unfolding chunk_from
last-IsChunk [] bytes h = tt
last-IsChunk (c ∷ cs) bytes h = ((omega arith, h), tt)

overflows-nonempty :
    (current : List BatchEntry) (bytes : ℕ) → overflows current bytes ≡ true → 0 < length current
unfolding overflows
overflows-nonempty [] bytes h = cc
overflows-nonempty (c ∷ cs) bytes h = omega arith

kept-WithinLimit :
    (current : List BatchEntry) (e : BatchEntry)
    → overflows current (size_of current + need e) ≡ false
    → WithinLimit (current ++ (e ∷ []))
unfolding overflows
kept-WithinLimit [] e h = inr refl
kept-WithinLimit (c ∷ cs) e h =
    let s = size_of-snoc (c ∷ cs) e in
    let bound : size_of (c ∷ cs) + need e ≤ batch_limit = ground arith in
    inl (omega (arith, s, bound))

single : (e : BatchEntry) → 8 + need e ≡ size_of (e ∷ [])
unfolding size_of
single e = omega arith

chunk_from-IsChunk :
    (es current : List BatchEntry)
    → WithinLimit current
    → All IsChunk (chunk_from es current (size_of current))
chunk_from-IsChunk [] current h = last-IsChunk current (size_of current) h
chunk_from-IsChunk (e ∷ es) current h =
    elim (Bool-cases (overflows current (size_of current + need e))) [
      | inl o ↦
          rw (chunk_from-flush e es current (size_of current) o, single e)
            (
              (overflows-nonempty current (size_of current + need e) o, h),
              chunk_from-IsChunk es (e ∷ []) (inr refl),
            )
      | inr o ↦
          rw (chunk_from-keep e es current (size_of current) o, sym (size_of-snoc current e))
            (chunk_from-IsChunk es (current ++ (e ∷ [])) (kept-WithinLimit current e o))
    ]

-- The chunks put together are the batch; none is empty, and one that would not fit the flash window
-- is a single entry.
pub chunk_splits :
    (entries : List BatchEntry) → (joined (chunk entries) ≡ entries) × All IsChunk (chunk entries)
unfolding chunk size_of
chunk_splits entries =
    (joined-chunk_from entries [] 8, chunk_from-IsChunk entries [] (inl (omega arith)))

-- The file of a chunk fits the flash window, and the runner runs all of it, whatever lies after it.
abbrev pub IsServed : List ℕ → List BatchEntry → Type 0
IsServed rest c =
    (length (write_batch c) ≤ batch_limit) × (read_batch (write_batch c ++ rest) ≡ some c)

single_size : (c : List BatchEntry) → length c ≡ 1 → All Servable c → size_of c ≤ batch_limit
unfolding size_of need
single_size [] h s = cc
single_size (e ∷ []) h s = omega (arith, s.0.short, s.0.few_args)
single_size (e ∷ f ∷ es) h s = absurd (omega arith)

chunk_size : (c : List BatchEntry) → IsChunk c → All Servable c → size_of c ≤ batch_limit
chunk_size c (p, inl h) s = h
chunk_size c (p, inr h) s = single_size c h s

file-IsServed : (rest : List ℕ) (c : List BatchEntry) → IsChunk c → All Servable c → IsServed rest c
file-IsServed rest c h s =
    let fits : length (write_batch c) ≤ batch_limit =
      omega (arith, length-write_batch c, chunk_size c h s) in
    (fits, read_batch-write_batch c rest s fits)

All-left :
    (P : BatchEntry → Type 0) (xs ys : List BatchEntry) → All P (xs ++ ys) → All P xs × All P ys
All-left P [] ys h = (tt, h)
All-left P (x ∷ xs) ys h = let r = All-left P xs ys h.1 in ((h.0, r.0), r.1)

files-IsServed :
    (rest : List ℕ) (cs : List (List BatchEntry))
    → All IsChunk cs
    → All Servable (joined cs)
    → All (IsServed rest) cs
files-IsServed rest [] h s = tt
files-IsServed rest (c ∷ cs) h s =
    let parts = All-left Servable c (joined cs) s in
    (file-IsServed rest c h.0 parts.0, files-IsServed rest cs h.1 parts.1)

-- For programs that the runner takes, the file of every chunk fits the flash window, and the runner
-- reads exactly the chunk's entries back from it, in order, whatever lies after it in the window.
pub chunk-IsServed :
    (entries : List BatchEntry) (rest : List ℕ)
    → All Servable entries
    → All (IsServed rest) (chunk entries)
chunk-IsServed entries rest h =
    let split = chunk_splits entries in
    files-IsServed rest (chunk entries) split.1 (subst (All Servable) (sym split.0) h)
