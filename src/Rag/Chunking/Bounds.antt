-- ===== src/Rag/Chunking/Bounds.antt =====
-- How long the chunks of src/app/rag/chunking.py can be.
use llmops_rag_api.Text.{Text}
use Prim.Native.Nat.{ℕ}
use llmops_rag_api.Rag.Chunking.{
  windows, flush, tail_of, carry, pack_step, pack, strip_all, split_normal, split_text, normalize,
  strip, is_empty, blank_lines, hard_split, split_paragraphs, squeeze_blanks, unify_newlines,
  joined,
}
use llmops_rag_api.Prelude.{
  zero, suc, ◌+◌, ◌-◌, ◌≤◌, ◌<◌, max, ◌≡◌, refl, ◌⊎◌, inl, inr, none, some, List, [], ◌∷◌, ◌++◌,
  arith, ◌==◌, All, length, length-take-le, Bool-cases, drop, length-drop, All-append, leb, ltb,
  leb→le, length-append, All-imp,
}
use llmops_rag_api.Text.Strip.{IsBare, length-strip, strip-IsBare}

-- A chunk is not blank, has no white space at its ends, and is at most `bound` long.
pub record IsGood (bound : ℕ) (c : Text) : Type 0 where
  pub stripped : IsBare c
  pub size : length c ≤ bound

length-windows :
    (rounds size step : ℕ) (s : Text) → All (λ w. length w ≤ size) (windows rounds size step s)
unfolding windows
length-windows zero size step s = tt
length-windows (suc rounds) size step [] = tt
length-windows (suc rounds) size step (c ∷ s) =
    (length-take-le size (c ∷ s), length-windows rounds size step (drop step (c ∷ s)))

length-flush :
    (bound : ℕ) (buffer : Text) → length buffer ≤ bound → All (λ c. length c ≤ bound) (flush buffer)
unfolding flush
length-flush bound [] h = tt
length-flush bound (c ∷ s) h = (h, tt)

length-tail_of : (buffer : Text) (overlap : ℕ) → length (tail_of buffer overlap) ≤ overlap
unfolding tail_of
length-tail_of buffer overlap = elim (Bool-cases (overlap == 0)) [
  | inl e ↦ rw e (omega arith)
  | inr e ↦ rw e (omega (arith, length-drop (length buffer - overlap) buffer))
]

length-carry :
    (overlap : ℕ) (buffer paragraph : Text)
    → length (carry overlap buffer paragraph) ≤ overlap + (length paragraph + 2)
unfolding carry
length-carry overlap buffer paragraph =
    let t = tail_of buffer overlap in
    elim (Bool-cases (is_empty t)) [
      | inl e ↦ rw e (omega arith)
      | inr e ↦ rw e (
          omega (
            arith,
            length-strip (t ++ (blank_lines ++ paragraph)),
            length-append t (blank_lines ++ paragraph),
            length-append blank_lines paragraph,
            length-tail_of buffer overlap,
          ))
    ]

-- One round keeps the buffer and what it appends within the bound.
length-pack_step :
    (size overlap : ℕ) (buffer paragraph : Text)
    → length buffer ≤ size + overlap + 2
    → let (out, after) = pack_step size overlap buffer paragraph in
      All (λ c. length c ≤ size + overlap + 2) out × (length after ≤ size + overlap + 2)
unfolding pack_step
length-pack_step size overlap buffer paragraph h =
    let bound = size + overlap + 2 in
    elim (Bool-cases (is_empty paragraph)) [
      | inl e ↦ rw e (tt, h)
      | inr e ↦ rw e (elim (Bool-cases (ltb size (length paragraph))) [
        | inl f ↦ rw f (
          All-append _ (flush buffer) (hard_split paragraph size overlap)
              (length-flush bound buffer h)
              (unfold hard_split in
                All-imp (λ w. length w ≤ size) (λ w. length w ≤ bound) _ (λ w l. omega arith)
                  (length-windows (length paragraph) size (max 1 (size - overlap)) paragraph)),
          omega arith,
        )
        | inr f ↦ rw f (elim (Bool-cases (leb (length (joined buffer paragraph)) size)) [
          | inl g ↦ rw g (tt, ground arith)
          | inr g ↦ rw g ((h, tt), ground (arith, length-carry overlap buffer paragraph))
        ])
      ])
    ]

length-pack :
    (size overlap : ℕ) (buffer : Text) (ps : List Text)
    → length buffer ≤ size + overlap + 2
    → All (λ c. length c ≤ size + overlap + 2) (pack size overlap buffer ps)
unfolding pack
length-pack size overlap buffer [] h = length-flush (size + overlap + 2) buffer h
length-pack size overlap buffer (p ∷ ps) h =
    let r = pack_step size overlap buffer (strip p) in
    let k = length-pack_step size overlap buffer (strip p) h in
    All-append _ r.0 (pack size overlap r.1 ps) k.0 (length-pack size overlap r.1 ps k.1)

strip_all-IsGood :
    (bound : ℕ) (cs : List Text)
    → All (λ c. length c ≤ bound) cs
    → All (IsGood bound) (strip_all cs)
unfolding strip_all
strip_all-IsGood bound [] h = tt
strip_all-IsGood bound (c ∷ cs) h = elim (Bool-cases (is_empty (strip c))) [
  | inl e ↦ rw e (strip_all-IsGood bound cs h.1)
  | inr e ↦ rw e (
    record {
      stripped = strip-IsBare c (λ n. ground arith);
      size = omega (arith, length-strip c, h.0);
    },
    strip_all-IsGood bound cs h.1,
  )
]

split_normal-IsGood :
    (text : Text) (size overlap : ℕ)
    → All (IsGood (size + overlap + 2)) (split_normal (strip text) size overlap)
unfolding split_normal
split_normal-IsGood text size overlap = elim (Bool-cases (is_empty (strip text))) [
  | inl e ↦ rw e tt
  | inr e ↦ rw e (elim (Bool-cases (leb (length (strip text)) size)) [
    | inl f ↦
        rw f (record { stripped = strip-IsBare text (λ n. ground arith); size = ground arith }, tt)
    | inr f ↦ rw f (
        strip_all-IsGood (size + overlap + 2) _
          (length-pack size overlap [] (split_paragraphs 0 (strip text)) (omega arith)))
  ])
]

-- `split_text` fails exactly when the overlap is not below the size. Otherwise each chunk begins and
-- ends with no white space, holds at least one character, and is at most the size, the overlap and
-- two newlines long.
pub split_text-IsGood :
    (text : Text) (size overlap : ℕ)
    → ((size ≤ overlap) × (split_text text size overlap ≡ none))
      ⊎ ((overlap < size)
          × (chunks : List Text) × (split_text text size overlap ≡ some chunks)
          × All (IsGood (size + overlap + 2)) chunks)
unfolding split_text normalize
split_text-IsGood text size overlap = elim (Bool-cases (leb size overlap)) [
  | inl e ↦ rw e (inl (leb→le size overlap e, refl))
  | inr e ↦
      let t = squeeze_blanks (unify_newlines text) in
      rw e (
        inr (
          ground arith,
          split_normal (strip t) size overlap,
          refl,
          split_normal-IsGood t size overlap,
        ))
]
