-- ===== src/Text/Strip.antt =====
-- What `s.strip()` keeps of a text.
use llmops_rag_api.Text.{Text, ◌≡◌, lstrip, rstrip, strip, ℕ, is_space, is_empty}
use llmops_rag_api.Prelude.{
  ◌≤◌, refl, ◌⊎◌, inl, inr, false, [], ◌∷◌, ◌++◌, arith, length, Bool-cases, ◌≢◌, ◌∙◌, ◌&&◌,
  if◌then◌else◌, ap, sym,
}
use mathlib.Core.List.{append_assoc}

-- `p` stands in `s` as it is.
abbrev pub Infix : Text → Text → Type 0
Infix p s = (before : Text) × (after : Text) × (s ≡ before ++ (p ++ after))

pub length-lstrip : (s : Text) → length (lstrip s) ≤ length s
unfolding lstrip
length-lstrip [] = omega arith
length-lstrip (c ∷ s) = ground (arith, length-lstrip s)

pub length-rstrip : (s : Text) → length (rstrip s) ≤ length s
unfolding rstrip
length-rstrip [] = omega arith
length-rstrip (c ∷ s) = ground (arith, length-rstrip s)

pub length-strip : (s : Text) → length (strip s) ≤ length s
unfolding strip
length-strip s = omega (arith, length-lstrip s, length-rstrip (lstrip s))

-- The ends of a text that `strip` leaves as it is.
pub data IsBare : Text → Type 0 where
  bare :
      {p : Text} (c : ℕ) (s r : Text) (d : ℕ)
      → p ≡ c ∷ s
      → is_space c ≡ false
      → p ≡ r ++ (d ∷ [])
      → is_space d ≡ false
      → IsBare p

lstrip-bare :
    (s : Text)
    → (lstrip s ≡ []) ⊎ ((c : ℕ) × (t : Text) × (lstrip s ≡ c ∷ t) × (is_space c ≡ false))
unfolding lstrip
lstrip-bare [] = inl refl
lstrip-bare (c ∷ s) = elim (Bool-cases (is_space c)) [
  | inl e ↦ rw e (lstrip-bare s)
  | inr e ↦ rw e (inr (c, s, refl, e))
]

keep_head :
    (x : ℕ) (t : Text)
    → is_empty t ≡ false
    → (if is_space x && is_empty t then [] else x ∷ t) ≡ x ∷ t
keep_head x t e = ground arith

is_empty-append : (r : Text) (d : ℕ) (b : Text) → is_empty (r ++ (d ∷ b)) ≡ false
is_empty-append [] d b = refl
is_empty-append (x ∷ r) d b = refl

rstrip-bare :
    (s : Text)
    → (rstrip s ≡ []) ⊎ ((r : Text) × (d : ℕ) × (rstrip s ≡ r ++ (d ∷ [])) × (is_space d ≡ false))
unfolding rstrip
rstrip-bare [] = inl refl
rstrip-bare (c ∷ s) = elim (rstrip-bare s) [
  | inl e ↦ elim (Bool-cases (is_space c)) [
    | inl f ↦ inl (rw (e, f) refl)
    | inr f ↦ inr ([], c, rw (e, f) refl, f)
  ]
  | inr (r, d, e, f) ↦
      inr (c ∷ r, d, rw e (keep_head c (r ++ (d ∷ [])) (is_empty-append r d [])), f)
]

-- A text that begins with no white space keeps its first character under `rstrip`.
rstrip-cons : (c : ℕ) (s : Text) → is_space c ≡ false → rstrip (c ∷ s) ≡ c ∷ rstrip s
unfolding rstrip
rstrip-cons c s e = rw e refl

pub lstrip-append :
    (a : Text) (c : ℕ) (t : Text)
    → is_space c ≡ false
    → (a' : Text) × (lstrip (a ++ (c ∷ t)) ≡ a' ++ (c ∷ t))
unfolding lstrip
lstrip-append [] c t e = ([], rw e refl)
lstrip-append (x ∷ a) c t e = elim (Bool-cases (is_space x)) [
  | inl f ↦ rw f (lstrip-append a c t e)
  | inr f ↦ rw f (x ∷ a, refl)
]

pub rstrip-append :
    (r : Text) (d : ℕ) (b : Text)
    → is_space d ≡ false
    → (b' : Text) × (rstrip (r ++ (d ∷ b)) ≡ r ++ (d ∷ b'))
unfolding rstrip
rstrip-append [] d b e = (rstrip b, rw e refl)
rstrip-append (x ∷ r) d b e =
    let (b', same) = rstrip-append r d b e in
    (b', rw same (keep_head x (r ++ (d ∷ b')) (is_empty-append r d b')))

-- What `strip` leaves of a text that is not blank begins and ends with no white space.
pub strip-IsBare : (s : Text) → strip s ≢ [] → IsBare (strip s)
unfolding strip
strip-IsBare s h = elim (lstrip-bare s) [
  | inl e ↦ absurd (h (rw e (unfold rstrip in refl)))
  | inr (c, t, e, f) ↦ elim (rstrip-bare (lstrip s)) [
    | inl g ↦ absurd (h g)
    | inr (r, d, g, k) ↦ bare c (rstrip t) r d (rw e (rstrip-cons c t f)) f g k
  ]
]

regroup : (a r : Text) (d : ℕ) (b : Text) → (a ++ r) ++ (d ∷ b) ≡ a ++ ((r ++ (d ∷ [])) ++ b)
regroup a r d b = simp append_assoc

-- A bare text that stands in `s` stands in what `strip` leaves of `s`.
pub strip-Infix : {p : Text} (s : Text) → IsBare p → Infix p s → Infix p (strip s)
unfolding strip
strip-Infix {p} s (bare c p' r d begins fc ends fd) (a, b, same) =
    let (a', left) = lstrip-append a c (p' ++ b) fc in
    let (b', right) = rstrip-append (a' ++ r) d b fd in
    let step : lstrip s ≡ (a' ++ r) ++ (d ∷ b) =
      ap lstrip (same ∙ ap (λ q. a ++ (q ++ b)) begins)
      ∙ (left ∙ (ap (λ q. a' ++ (q ++ b)) (sym begins ∙ ends) ∙ sym (regroup a' r d b))) in
    (a', b', rw step (right ∙ (regroup a' r d b' ∙ ap (λ q. a' ++ (q ++ b')) (sym ends))))

pub IsBare-ne : {p : Text} → IsBare p → p ≢ []
IsBare-ne (bare c s r d begins fc ends fd) e = cc

lstrip-suffix : (s : Text) → (a : Text) × (s ≡ a ++ lstrip s)
unfolding lstrip
lstrip-suffix [] = ([], refl)
lstrip-suffix (c ∷ s) = elim (Bool-cases (is_space c)) [
  | inl e ↦ let (a, same) = lstrip-suffix s in (c ∷ a, rw e (ap (λ t. c ∷ t) same))
  | inr e ↦ ([], rw e refl)
]

rstrip-prefix : (s : Text) → (b : Text) × (s ≡ rstrip s ++ b)
unfolding rstrip
rstrip-prefix [] = ([], refl)
rstrip-prefix (c ∷ s) = elim (Bool-cases (is_space c && is_empty (rstrip s))) [
  | inl e ↦ (c ∷ s, rw e refl)
  | inr e ↦ let (b, same) = rstrip-prefix s in (b, rw e (ap (λ t. c ∷ t) same))
]

pub strip-Infix_self : (s : Text) → Infix (strip s) s
unfolding strip
strip-Infix_self s =
    let (a, left) = lstrip-suffix s in
    let (b, right) = rstrip-prefix (lstrip s) in (a, b, left ∙ ap (λ t. a ++ t) right)

rstrip-end : (r : Text) (d : ℕ) → is_space d ≡ false → rstrip (r ++ (d ∷ [])) ≡ r ++ (d ∷ [])
unfolding rstrip
rstrip-end [] d e = rw e refl
rstrip-end (x ∷ r) d e =
    rw (rstrip-end r d e) (keep_head x (r ++ (d ∷ [])) (is_empty-append r d []))

strip_bare : {p : Text} → IsBare p → strip p ≡ p
unfolding strip lstrip
strip_bare {p} (bare c s r d begins fc ends fd) =
    let head : lstrip p ≡ p = ap lstrip begins ∙ (kept c s fc ∙ sym begins) in
    ap rstrip head ∙ (ap rstrip ends ∙ (rstrip-end r d fd ∙ sym ends))
  where
    kept : (c : ℕ) (s : Text) → is_space c ≡ false → lstrip (c ∷ s) ≡ c ∷ s
    kept c s e = rw e refl

pub strip-strip : (s : Text) → strip (strip s) ≡ strip s
unfolding strip lstrip rstrip
strip-strip s = elim (empty_or (strip s)) [
  | inl e ↦ rw e refl
  | inr h ↦ strip_bare (strip-IsBare s h)
]
  where
    empty_or : (t : Text) → (t ≡ []) ⊎ (t ≢ [])
    empty_or [] = inl refl
    empty_or (c ∷ t) = inr (λ e. cc e)
