-- ===== src/Rag/Chunking/Coverage.antt =====
-- That src/app/rag/chunking.py loses no paragraph.
use llmops_rag_api.Text.{Text}
use llmops_rag_api.Prelude.{
  List, ℕ, ◌≤◌, ◌≡◌, refl, ◌≢◌, ◌⊎◌, inl, inr, false, [], ◌∷◌, ◌++◌, arith, In, In-append_left,
  In-append_right, Bool-cases, length, ltb, leb, some,
}
use llmops_rag_api.Text.Strip.{
  Infix, IsBare, strip-Infix, IsBare-ne, strip-Infix_self, strip-IsBare,
}
use llmops_rag_api.Rag.Chunking.{
  flush, joined, pack_step, pack, carry, strip_all, blank_lines, strip, is_empty, tail_of,
  hard_split, split_paragraphs, split_normal, split_text, normalize,
}
use llmops_rag_api.Rag.Chunking.Pieces.{
  Infix-ne, Infix-refl, Infix-trans, Infix-append_left, Infix-append_right, split-Infix,
}

-- Some chunk holds `p`.
abbrev pub Covered : Text → List Text → Type 0
Covered p chunks = (c : Text) × In c chunks × Infix p c

Covered-left : (p : Text) (xs ys : List Text) → Covered p xs → Covered p (xs ++ ys)
Covered-left p xs ys (c, i, f) = (c, In-append_left c xs ys i, f)

Covered-right : (p : Text) (xs ys : List Text) → Covered p ys → Covered p (xs ++ ys)
Covered-right p xs ys (c, i, f) = (c, In-append_right c xs ys i, f)

flush-Covered : (p buffer : Text) → p ≢ [] → Infix p buffer → Covered p (flush buffer)
unfolding flush
flush-Covered p [] h f = absurd (Infix-ne p [] h f refl)
flush-Covered p (c ∷ s) h f = (c ∷ s, inl refl, f)

joined-Infix :
    (p buffer paragraph : Text) → p ≢ [] → Infix p buffer → Infix p (joined buffer paragraph)
unfolding joined
joined-Infix p [] paragraph h f = absurd (Infix-ne p [] h f refl)
joined-Infix p (c ∷ s) paragraph h f = Infix-append_left p (c ∷ s) (blank_lines ++ paragraph) f

-- A paragraph in the buffer is kept by one round, in the buffer or in what the round appends.
pack_step-keeps :
    (size overlap : ℕ) (p buffer paragraph : Text)
    → p ≢ []
    → Infix p buffer
    → let (out, after) = pack_step size overlap buffer paragraph in
      (Covered p out) ⊎ (Infix p after)
unfolding pack_step
pack_step-keeps size overlap p buffer paragraph h f = elim (Bool-cases (is_empty paragraph)) [
  | inl e ↦ rw e (inr f)
  | inr e ↦ rw e (elim (Bool-cases (ltb size (length paragraph))) [
    | inl g ↦ rw g (
        inl (
          Covered-left p (flush buffer) (hard_split paragraph size overlap)
            (flush-Covered p buffer h f)))
    | inr g ↦ rw g (elim (Bool-cases (leb (length (joined buffer paragraph)) size)) [
      | inl k ↦ rw k (inr (joined-Infix p buffer paragraph h f))
      | inr k ↦ rw k (inl (buffer, inl refl, f))
    ])
  ])
]

pack-keeps :
    (size overlap : ℕ) (p buffer : Text) (ps : List Text)
    → p ≢ []
    → Infix p buffer
    → Covered p (pack size overlap buffer ps)
unfolding pack
pack-keeps size overlap p buffer [] h f = flush-Covered p buffer h f
pack-keeps size overlap p buffer (q ∷ ps) h f =
    let r = pack_step size overlap buffer (strip q) in
    elim (pack_step-keeps size overlap p buffer (strip q) h f) [
      | inl out ↦ Covered-left p r.0 (pack size overlap r.1 ps) out
      | inr after ↦
          Covered-right p r.0 (pack size overlap r.1 ps) (pack-keeps size overlap p r.1 ps h after)
    ]

carry-Infix : (overlap : ℕ) (p buffer : Text) → IsBare p → Infix p (carry overlap buffer p)
unfolding carry
carry-Infix overlap p buffer b =
    let t = tail_of buffer overlap in
    elim (Bool-cases (is_empty t)) [
      | inl e ↦ rw e (Infix-refl p)
      | inr e ↦ rw e (
          strip-Infix (t ++ (blank_lines ++ p)) b (
            Infix-append_right p t (blank_lines ++ p)
              (Infix-append_right p blank_lines p (Infix-refl p))))
    ]

joined-last : (buffer p : Text) → Infix p (joined buffer p)
unfolding joined
joined-last [] p = Infix-refl p
joined-last (c ∷ s) p =
    Infix-append_right p (c ∷ s) (blank_lines ++ p)
      (Infix-append_right p blank_lines p (Infix-refl p))

-- A paragraph that is not too long is in the buffer after its own round.
pack_step-takes :
    (size overlap : ℕ) (p buffer : Text)
    → IsBare p
    → length p ≤ size
    → Infix p (pack_step size overlap buffer p).1
unfolding pack_step
pack_step-takes size overlap p buffer b l =
    let full : is_empty p ≡ false = ground (arith, IsBare-ne b) in
    let short : ltb size (length p) ≡ false = ground arith in
    rw full (
      rw short (elim (Bool-cases (leb (length (joined buffer p)) size)) [
        | inl k ↦ rw k (joined-last buffer p)
        | inr k ↦ rw k (carry-Infix overlap p buffer b)
      ]))

pack-takes :
    (size overlap : ℕ) (raw buffer : Text) (ps : List Text)
    → In raw ps
    → IsBare (strip raw)
    → length (strip raw) ≤ size
    → Covered (strip raw) (pack size overlap buffer ps)
unfolding pack
pack-takes size overlap raw buffer [] i b l = absurd i
pack-takes size overlap raw buffer (q ∷ ps) (inl e) b l =
    let p = strip raw in
    let r = pack_step size overlap buffer p in
    rw (← e) (
      Covered-right p r.0 (pack size overlap r.1 ps) (
        pack-keeps size overlap p r.1 ps (IsBare-ne b) (pack_step-takes size overlap p buffer b l)))
pack-takes size overlap raw buffer (q ∷ ps) (inr i) b l =
    let r = pack_step size overlap buffer (strip q) in
    Covered-right (strip raw) r.0 (pack size overlap r.1 ps)
      (pack-takes size overlap raw r.1 ps i b l)

strip_all-Covered : (p : Text) (cs : List Text) → IsBare p → Covered p cs → Covered p (strip_all cs)
unfolding strip_all
strip_all-Covered p [] b (c, i, f) = absurd i
strip_all-Covered p (d ∷ cs) b (c, inl e, f) =
    let g : Infix p (strip d) = strip-Infix d b (rw e at f) in
    let full : is_empty (strip d) ≡ false = ground (arith, Infix-ne p (strip d) (IsBare-ne b) g) in
    rw full (strip d, inl refl, g)
strip_all-Covered p (d ∷ cs) b (c, inr i, f) =
    let (c', i', f') = strip_all-Covered p cs b (c, i, f) in
    elim (Bool-cases (is_empty (strip d))) [
      | inl e ↦ rw e (c', i', f')
      | inr e ↦ rw e (c', inr i', f')
    ]

split_normal-Covered :
    (text : Text) (size overlap : ℕ) (raw : Text)
    → In raw (split_paragraphs 0 text)
    → IsBare (strip raw)
    → length (strip raw) ≤ size
    → Covered (strip raw) (split_normal text size overlap)
unfolding split_normal
split_normal-Covered text size overlap raw i b l =
    let inside : Infix (strip raw) text =
      Infix-trans (strip raw) raw text (strip-Infix_self raw) (split-Infix 0 text raw i) in
    let full : is_empty text ≡ false =
      ground (arith, Infix-ne (strip raw) text (IsBare-ne b) inside) in
    rw full (elim (Bool-cases (leb (length text) size)) [
      | inl e ↦ rw e (text, inl refl, inside)
      | inr e ↦ rw e (
          strip_all-Covered (strip raw) (pack size overlap [] (split_paragraphs 0 text)) b
            (pack-takes size overlap raw [] (split_paragraphs 0 text) i b l))
    ])

-- No paragraph is lost or cut: each paragraph of the normalised text that is not blank and is no
-- longer than the size, stripped of the white space at its ends, stands whole in some chunk.
pub split_text-Covered :
    (text raw : Text) (size overlap : ℕ) {chunks : List Text}
    → split_text text size overlap ≡ some chunks
    → In raw (split_paragraphs 0 (normalize text))
    → strip raw ≢ []
    → length (strip raw) ≤ size
    → Covered (strip raw) chunks
unfolding split_text
split_text-Covered text raw size overlap {chunks} e i ne l =
    let same : split_normal (normalize text) size overlap ≡ chunks = ground arith in
    rw (← same) (split_normal-Covered (normalize text) size overlap raw i (strip-IsBare raw ne) l)
