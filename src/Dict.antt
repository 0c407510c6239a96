-- ===== src/Dict.antt =====
-- A Python `dict` with text keys, in insertion order.
use llmops_rag_api.Prelude.{
  suc, ◌≡◌, refl, ◌≢◌, Option, none, some, List, [], ◌∷◌, arith, length, if◌then◌else◌, inl, inr,
  Bool-cases,
}
use llmops_rag_api.Prelude.Sort.{Picks, here, there}
use llmops_rag_api.Text.{Text, text_eq, text_eq_iff, text_eq_refl, text_eq_sound}

abbrev pub Dict : Type 0 → Type 0
Dict V = List (Text × V)

module _ {V : Type 0} where
  -- `d.get(k)`
  unfoldable pub lookup : Text → Dict V → Option V
  lookup k [] = none
  lookup k ((j, v) ∷ d) = if text_eq j k then some v else lookup k d

  -- `d[k] = v`
  unfoldable pub set : Text → V → Dict V → Dict V
  set k v [] = (k, v) ∷ []
  set k v ((j, w) ∷ d) = let rest = set k v d in if text_eq j k then (j, v) ∷ d else (j, w) ∷ rest

  -- `del d[k]`
  unfoldable pub erase : Text → Dict V → Dict V
  erase k [] = []
  erase k ((j, w) ∷ d) = let rest = erase k d in if text_eq j k then d else (j, w) ∷ rest

  -- No key stands twice.
  unfoldable pub IsDict : Dict V → Type 0
  IsDict [] = Unit
  IsDict ((k, v) ∷ d) = (lookup k d ≡ none) × IsDict d

  pub lookup-set_self : (k : Text) (v : V) (d : Dict V) → lookup k (set k v d) ≡ some v
  unfolding lookup set
  lookup-set_self k v [] = rw text_eq_refl
  lookup-set_self k v ((j, w) ∷ d) = ground (arith, lookup-set_self k v d)

  pub lookup-set_ne : (j k : Text) (v : V) (d : Dict V) → j ≢ k → lookup j (set k v d) ≡ lookup j d
  unfolding lookup set
  lookup-set_ne j k v [] h = ground (arith, text_eq_iff k j)
  lookup-set_ne j k v ((i, w) ∷ d) h =
      ground (arith, lookup-set_ne j k v d, text_eq_iff i j, text_eq_iff i k)

  pub set-IsDict : (k : Text) (v : V) (d : Dict V) → IsDict d → IsDict (set k v d)
  unfolding lookup set IsDict
  set-IsDict k v [] h = (refl, tt)
  set-IsDict k v ((j, w) ∷ d) h = elim (Bool-cases (text_eq j k)) [
    | inl e ↦ rw e h
    | inr e ↦
        rw e (ground (arith, lookup-set_ne j k v d, text_eq_iff j k, h.0), set-IsDict k v d h.1)
  ]

  -- A new key makes the dictionary one longer, and a known key leaves its size.
  pub length-set_new :
      (k : Text) (v : V) (d : Dict V) → lookup k d ≡ none → length (set k v d) ≡ suc (length d)
  unfolding lookup set
  length-set_new k v [] h = refl
  length-set_new k v ((j, w) ∷ d) h = ground (arith, length-set_new k v d)

  pub length-set_known :
      (k : Text) (v : V) {w : V} (d : Dict V) → lookup k d ≡ some w → length (set k v d) ≡ length d
  unfolding lookup set
  length-set_known k v [] h = cc
  length-set_known k v {w = u} ((j, w) ∷ d) h = ground (arith, length-set_known k v {w = u} d)

  lookup-Picks_ne : (k : Text) (v : V) {d r : Dict V} → Picks (k, v) d r → lookup k d ≢ none
  unfolding lookup
  lookup-Picks_ne k v here h = ground (arith, text_eq_refl k)
  lookup-Picks_ne k v (there {y = y} p) h = ground (arith, lookup-Picks_ne k v p)

  lookup-Picks-none :
      (j : Text) {x : Text × V} {d r : Dict V} → Picks x d r → lookup j d ≡ none → lookup j r ≡ none
  unfolding lookup
  lookup-Picks-none j here h = ground arith
  lookup-Picks-none j (there {y = y} p) h = ground (arith, lookup-Picks-none j p)

  pub Picks-IsDict : {x : Text × V} {d r : Dict V} → Picks x d r → IsDict d → IsDict r
  unfolding IsDict
  Picks-IsDict here h = h.1
  Picks-IsDict (there {y = y} p) h = (lookup-Picks-none y.0 p h.0, Picks-IsDict p h.1)

  -- Deleting a key of a dictionary takes out its only entry.
  pub erase-Picks : (k : Text) (v : V) {d r : Dict V} → Picks (k, v) d r → IsDict d → erase k d ≡ r
  unfolding erase IsDict
  erase-Picks k v here h = rw text_eq_refl
  erase-Picks k v (there {y = y} {d = d} p) h =
      ground (arith, erase-Picks k v p h.1, text_eq_sound y.0 k, lookup-Picks_ne k v p, h.0)

  pub lookup-erase_ne : (j k : Text) (d : Dict V) → j ≢ k → lookup j (erase k d) ≡ lookup j d
  unfolding lookup erase
  lookup-erase_ne j k [] h = refl
  lookup-erase_ne j k ((i, w) ∷ d) h =
      ground (arith, lookup-erase_ne j k d, text_eq_iff i j, text_eq_iff i k)

  pub lookup-erase-none :
      (j k : Text) (d : Dict V) → lookup j d ≡ none → lookup j (erase k d) ≡ none
  unfolding lookup erase
  lookup-erase-none j k [] h = refl
  lookup-erase-none j k ((i, w) ∷ d) h = ground (arith, lookup-erase-none j k d)

  pub lookup-erase_self : (k : Text) (d : Dict V) → IsDict d → lookup k (erase k d) ≡ none
  unfolding lookup erase IsDict
  lookup-erase_self k [] h = refl
  lookup-erase_self k ((i, w) ∷ d) h =
      ground (arith, h.0, lookup-erase_self k d h.1, text_eq_iff i k)

  pub erase-IsDict : (k : Text) (d : Dict V) → IsDict d → IsDict (erase k d)
  unfolding erase IsDict
  erase-IsDict k [] h = tt
  erase-IsDict k ((i, w) ∷ d) h = elim (Bool-cases (text_eq i k)) [
    | inl e ↦ rw e h.1
    | inr e ↦ rw e (lookup-erase-none i k d h.0, erase-IsDict k d h.1)
  ]
