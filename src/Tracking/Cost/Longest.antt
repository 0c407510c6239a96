-- ===== src/Tracking/Cost/Longest.antt =====
-- Which entry of the price table of src/app/tracking/cost.py a model name gets: dated snapshots such
-- as "gpt-4o-mini-2024-07-18" must not be taken for a shorter name of the table.
use llmops_rag_api.Tracking.Cost.{
  ModelPrice, prefix_price, exact_price, pricing, price_for, or_price,
}
use llmops_rag_api.Prelude.{
  List, ◌≤◌, ◌≡◌, refl, inl, inr, true, false, some, [], ◌∷◌, arith, All, length, In, Bool-cases,
  leb, ap, leb→le, All-In, Option-cases,
}
use llmops_rag_api.Text.{starts_with, Text, text_eq, text_eq_sound}

abbrev pub Table : Type 0
Table = List (Text × ModelPrice)

-- Two prefixes of one text: the shorter is a prefix of the longer.
starts_with_both :
    (s t u : Text)
    → starts_with s t ≡ true
    → starts_with s u ≡ true
    → length t ≤ length u
    → starts_with u t ≡ true
unfolding starts_with
starts_with_both s [] u p q l = refl
starts_with_both s (a ∷ t) [] p q l = absurd (omega arith)
starts_with_both [] (a ∷ t) (b ∷ u) p q l = cc
starts_with_both (c ∷ s) (a ∷ t) (b ∷ u) p q l = ground (arith, starts_with_both s t u)

starts_with_self : (s : Text) → starts_with s s ≡ true
unfolding starts_with
starts_with_self [] = refl
starts_with_self (a ∷ s) = ground (arith, starts_with_self s)

-- No name of the table is a prefix of a later one.
abbrev IsOrdered : Table → Type 0
IsOrdered [] = Unit
IsOrdered ((known, _) ∷ rest) = All (λ e. starts_with e.0 known ≡ false) rest × IsOrdered rest

length-prefix : (s t : Text) → starts_with s t ≡ true → length t ≤ length s
unfolding starts_with
length-prefix s [] p = omega arith
length-prefix [] (a ∷ t) p = cc
length-prefix (c ∷ s) (a ∷ t) p = ground (arith, length-prefix s t)

-- A name that an ordered table lists after `known` is no longer, where both fit the model.
no_longer :
    (model known name : Text)
    → starts_with model known ≡ true
    → starts_with model name ≡ true
    → starts_with name known ≡ false
    → length name ≤ length known
no_longer model known name e fits o = elim (Bool-cases (leb (length name) (length known))) [
  | inl l ↦ leb→le _ _ l
  | inr l ↦ ground (arith, starts_with_both model known name e fits)
]

-- An entry of the table that fits, and is at least as long as `name`.
abbrev pub Best : Text → Table → Text → ModelPrice → Type 0
Best model table name p =
    (best : Text) × In (best, p) table
    × (starts_with model best ≡ true)
    × (length name ≤ length best)

-- The first entry that fits is the longest.
prefix_price-longest :
    (model : Text) (table : Table) (name : Text) (price : ModelPrice)
    → IsOrdered table
    → In (name, price) table
    → starts_with model name ≡ true
    → (p : ModelPrice) × (prefix_price model table ≡ some p) × Best model table name p
unfolding prefix_price
prefix_price-longest model [] name price o i fits = absurd i
prefix_price-longest model ((known, p) ∷ rest) name price o i fits =
    elim (Bool-cases (starts_with model known)) [
      | inl e ↦
          let best : length name ≤ length known = elim i [
            | inl same ↦ omega (arith, ap (λ (x : Text × ModelPrice). length x.0) same)
            | inr later ↦
                no_longer model known name e fits
                  (All-In (λ x. starts_with x.0 known ≡ false) (name, price) rest o.0 later)
          ] in
          (p, rw e refl, (known, inl refl, e, best))
      | inr e ↦ elim i [
        | inl same ↦ absurd (clash (ap (λ (x : Text × ModelPrice). starts_with model x.0) same) e)
        | inr later ↦
            let (q, found, best) = prefix_price-longest model rest name price o.1 later fits in
            (q, rw e found, (best.0, inr best.1, best.2, best.3))
      ]
    ]
  where
    clash : starts_with model name ≡ starts_with model known → starts_with model known ≡ false → ⊥
    clash same e = cc

exact_price-In :
    (model : Text) (table : Table) (p : ModelPrice)
    → exact_price model table ≡ some p
    → In (model, p) table
unfolding exact_price
exact_price-In model [] p e = cc
exact_price-In model ((known, q) ∷ rest) p e = elim (Bool-cases (text_eq known model)) [
  | inl same ↦ inl (ground (arith, text_eq_sound known model))
  | inr differs ↦ inr (exact_price-In model rest p (rw differs at e))
]

pricing-IsOrdered : IsOrdered pricing
unfolding starts_with
pricing-IsOrdered = (
  (refl, (refl, (refl, (refl, tt)))),
  ((refl, (refl, (refl, tt))), ((refl, (refl, tt)), ((refl, tt), (tt, tt)))),
)

-- A model whose name begins with a name of the price table is charged at the entry with the longest
-- such name: the entry that `price_for` takes fits, and no other that fits is longer.
pub price_for-longest :
    (model name : Text) (price : ModelPrice)
    → In (name, price) pricing
    → starts_with model name ≡ true
    → Best model pricing name (price_for model)
unfolding price_for
price_for-longest model name price i fits = elim (Option-cases (exact_price model pricing)) [
  | inr (p, e) ↦
      rw (e, or_price)
        (
          model,
          exact_price-In model pricing p e,
          starts_with_self model,
          length-prefix model name fits,
        )
  | inl e ↦
      let (p, found, best) =
        prefix_price-longest model pricing name price pricing-IsOrdered i fits in
      rw (e, or_price) (rw (found, or_price) best)
]
