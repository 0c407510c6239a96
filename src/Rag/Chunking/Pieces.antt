-- ===== src/Rag/Chunking/Pieces.antt =====
-- That the pieces of the paragraph split of src/app/rag/chunking.py stand in the text.
use llmops_rag_api.Text.{Text}
use llmops_rag_api.Prelude.{
  List, ℕ, ◌≡◌, refl, ◌≢◌, inl, inr, [], ◌∷◌, ◌++◌, In, Option-cases, some, none, ap, suc, zero,
  subst,
}
use llmops_rag_api.Text.Strip.{Infix}
use llmops_rag_api.Rag.Chunking.{split_paragraphs, separator, cons_head}
use mathlib.Core.List.{append-nil, append_assoc}

pub Infix-refl : (p : Text) → Infix p p
Infix-refl p = ([], [], rw append-nil refl)

pub Infix-append_left : (p s t : Text) → Infix p s → Infix p (s ++ t)
Infix-append_left p s t (a, b, e) = (a, b ++ t, rw e (simp append_assoc))

pub Infix-append_right : (p s t : Text) → Infix p t → Infix p (s ++ t)
Infix-append_right p s t (a, b, e) = (s ++ a, b, rw e (simp append_assoc))

pub Infix-trans : (p q s : Text) → Infix p q → Infix q s → Infix p s
Infix-trans p q s (a, b, e) (a', b', e') = (a' ++ a, b ++ b', rw (e', e) (simp append_assoc))

pub Infix-ne : (p s : Text) → p ≢ [] → Infix p s → s ≢ []
Infix-ne [] s h f e = h refl
Infix-ne (c ∷ p) s h ([], b, e) f = cc
Infix-ne (c ∷ p) s h (x ∷ a, b, e) f = cc

split-at :
    (c : ℕ) (s : Text) (n : ℕ)
    → separator c s ≡ some n
    → split_paragraphs 0 (c ∷ s) ≡ [] ∷ split_paragraphs n s
unfolding split_paragraphs
split-at c s n e = rw (e, split_paragraphs) refl

split-on :
    (c : ℕ) (s : Text)
    → separator c s ≡ none
    → split_paragraphs 0 (c ∷ s) ≡ cons_head c (split_paragraphs 0 s)
unfolding split_paragraphs
split-on c s e = rw (e, split_paragraphs) refl

-- The first piece of the split stands at the front of the text.
abbrev StartsWithHead : List Text → Text → Type 0
StartsWithHead [] s = Unit
StartsWithHead (p ∷ ps) s = (b : Text) × (s ≡ p ++ b)

cons_head-first :
    (c : ℕ) (ps : List Text) (s : Text)
    → StartsWithHead ps s
    → StartsWithHead (cons_head c ps) (c ∷ s)
cons_head-first c [] s h = (s, refl)
cons_head-first c (p ∷ ps) s (b, e) = (b, ap (λ t. c ∷ t) e)

split-first : (s : Text) → StartsWithHead (split_paragraphs 0 s) s
split-first [] = unfold split_paragraphs in ([], refl)
split-first (c ∷ s) = elim (Option-cases (separator c s)) [
  | inr (n, f) ↦ rw (split-at c s n f) (c ∷ s, refl)
  | inl f ↦ rw (split-on c s f) (cons_head-first c (split_paragraphs 0 s) s (split-first s))
]

Infix-cons : (c : ℕ) (r s : Text) → Infix r s → Infix r (c ∷ s)
Infix-cons c r s (a, b, e) = (c ∷ a, b, ap (λ t. c ∷ t) e)

cons_head-Infix :
    (c : ℕ) (r : Text) (ps : List Text) (s : Text)
    → StartsWithHead ps s
    → (In r ps → Infix r s)
    → In r (cons_head c ps)
    → Infix r (c ∷ s)
cons_head-Infix c r [] s h f (inl e) = ([], s, rw e refl)
cons_head-Infix c r [] s h f (inr i) = absurd i
cons_head-Infix c r (p ∷ ps) s (b, e) f (inl g) = ([], b, rw g (ap (λ t. c ∷ t) e))
cons_head-Infix c r (p ∷ ps) s h f (inr i) = Infix-cons c r s (f (inr i))

pub split-Infix : (n : ℕ) (s r : Text) → In r (split_paragraphs n s) → Infix r s
unfolding split_paragraphs
split-Infix n [] r (inl e) = ([], [], rw e refl)
split-Infix n [] r (inr i) = absurd i
split-Infix (suc n) (c ∷ s) r i = Infix-cons c r s (split-Infix n s r i)
split-Infix zero (c ∷ s) r i = elim (Option-cases (separator c s)) [
  | inr (n, f) ↦ elim (subst (λ ps. In r ps) (split-at c s n f) i) [
    | inl e ↦ ([], c ∷ s, rw e refl)
    | inr j ↦ Infix-cons c r s (split-Infix n s r j)
  ]
  | inl f ↦
      cons_head-Infix c r (split_paragraphs 0 s) s (split-first s) (split-Infix 0 s r)
        (subst (λ ps. In r ps) (split-on c s f) i)
]
