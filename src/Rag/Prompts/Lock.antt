-- ===== src/Rag/Prompts/Lock.antt =====
-- What a lock of src/app/rag/prompts.py says of the templates that it is read with.
use llmops_rag_api.Prelude.{
  Option, Bool, none, some, [], ◌∷◌, ◌≡◌, refl, ◌↔◌, All, Bool-cases, inl, inr, true, false, ◌∙◌,
  ap, ◌&&◌, ◌++◌, ◌⊎◌,
}
use llmops_rag_api.Text.{Text, text_eq, text_eq_sound, text_eq_refl}
use llmops_rag_api.Dict.{Dict, lookup, IsDict}
use llmops_rag_api.Rag.Prompts.{
  PromptSet, PromptTemplate, insert_item, sorted_items, hashes_of, fingerprint, is_hash, is_clean,
  load_prompt_set, text_leb, read_lock, build_lock, tracked_version, TemplateLib, ok,
  or_unversioned, strip, codes, Result, PromptError, raised, load_templates,
}

and_iff :
    (a b : Bool) {A B : Type 0} → (a ≡ true) ↔ A → (b ≡ true) ↔ B → ((a && b) ≡ true) ↔ (A × B)
and_iff true b f g = ((λ e. (f.0 refl, g.0 e)), (λ p. g.1 p.1))
and_iff false b f g = ((λ e. absurd (clash e)), (λ p. f.1 p.0))
  where
    clash : false ≡ true → ⊥
    clash e = cc

pub Result-cases :
    {A : Type 0} (r : Result A) → ((e : PromptError) × (r ≡ raised e)) ⊎ ((a : A) × (r ≡ ok a))
Result-cases (raised e) = inl (e, refl)
Result-cases (ok a) = inr (a, refl)

module _ {V : Type 0} where
  lookup-insert_item :
      (k j : Text) (v : V) (d : Dict V)
      → lookup j d ≡ none
      → lookup k (insert_item (j, v) d) ≡ lookup k ((j, v) ∷ d)
  unfolding insert_item lookup
  lookup-insert_item k j v [] h = refl
  lookup-insert_item k j v ((i, w) ∷ d) h = elim (Bool-cases (text_leb j i)) [
    | inl e ↦ rw e refl
    | inr e ↦ elim (Bool-cases (text_eq i j)) [
      | inl f ↦ absurd (taken (rw f at h))
      | inr f ↦
          let rest : lookup k (insert_item (j, v) d) ≡ lookup k ((j, v) ∷ d) =
            lookup-insert_item k j v d (rw f at h) in
          rw e (elim (Bool-cases (text_eq i k)) [
            | inr x ↦ rw x rest
            | inl x ↦ elim (Bool-cases (text_eq j k)) [
              | inr y ↦ rw x (rw y refl)
              | inl y ↦ absurd (distinct f (text_eq_sound i k x) (text_eq_sound j k y))
            ]
          ])
    ]
  ]
    where
      taken : some w ≡ none → ⊥
      taken e = cc

      distinct : text_eq i j ≡ false → i ≡ k → j ≡ k → ⊥
      distinct f x y =
          let same : i ≡ j = cc in let e : text_eq i j ≡ true = rw same (text_eq_refl j) in cc

  lookup-sorted_items : (k : Text) (d : Dict V) → IsDict d → lookup k (sorted_items d) ≡ lookup k d
  unfolding sorted_items IsDict lookup
  lookup-sorted_items k [] h = refl
  lookup-sorted_items k ((j, v) ∷ d) h =
      let absent : lookup j (sorted_items d) ≡ none = lookup-sorted_items j d h.1 ∙ h.0 in
      let rest = lookup-sorted_items k d h.1 in
      lookup-insert_item k j v (sorted_items d) absent ∙ rw rest refl

module _ (sha256 : Text → Text) where
  abbrev hash_of : Option PromptTemplate → Option Text
  hash_of none = none
  hash_of (some t) = some (fingerprint sha256 t.text)

  lookup-hashes_of :
      (k : Text) (ts : Dict PromptTemplate) → lookup k (hashes_of sha256 ts) ≡ hash_of (lookup k ts)
  unfolding hashes_of lookup
  lookup-hashes_of k [] = refl
  lookup-hashes_of k ((name, t) ∷ ts) = elim (Bool-cases (text_eq name k)) [
    | inl e ↦ rw e refl
    | inr e ↦ rw e (lookup-hashes_of k ts)
  ]

  -- Every template has one of the same name and the same fingerprint in the set.
  abbrev pub Same : PromptSet → Dict PromptTemplate → Type 0
  Same s ts =
      All
        (λ (p : Text × PromptTemplate).
          (t : PromptTemplate) × (lookup p.0 s.templates ≡ some t)
          × (fingerprint sha256 t.text ≡ fingerprint sha256 p.1.text))
        ts

  is_hash_iff :
      (o : Option PromptTemplate) (h : Text)
      → (is_hash (hash_of o) h ≡ true)
        ↔ ((t : PromptTemplate) × (o ≡ some t) × (fingerprint sha256 t.text ≡ h))
  is_hash_iff none h = ((λ e. absurd (clash e)), (λ p. absurd (missing p.1)))
    where
      clash : false ≡ true → ⊥
      clash e = cc

      missing : {t : PromptTemplate} → none ≡ some t → ⊥
      missing e = cc
  is_hash_iff (some t) h = (
    (λ e. (t, refl, text_eq_sound (fingerprint sha256 t.text) h e)),
    (λ p. let same : t ≡ p.0 = cc p.1 in rw same (rw (p.2) (text_eq_refl h))),
  )

  module _ (s : PromptSet) (version : Text) (d : IsDict s.templates) where
    is_clean-build_lock :
        (ts : Dict PromptTemplate)
        → (is_clean sha256 (hashes_of sha256 (sorted_items s.templates)) ts ≡ true) ↔ Same s ts
    unfolding is_clean
    is_clean-build_lock [] = ((λ e. tt), (λ h. refl))
    is_clean-build_lock ((name, t) ∷ ts) =
        let hash : lookup name (hashes_of sha256 (sorted_items s.templates))
            ≡ hash_of (lookup name s.templates) =
          lookup-hashes_of name (sorted_items s.templates)
          ∙ ap hash_of (lookup-sorted_items name s.templates d) in
        let one = is_hash_iff (lookup name s.templates) (fingerprint sha256 t.text) in
        let rest = is_clean-build_lock ts in
        rw hash (
          and_iff (is_hash (hash_of (lookup name s.templates)) (fingerprint sha256 t.text))
            (is_clean sha256 (hashes_of sha256 (sorted_items s.templates)) ts) one rest)

    -- Prompts that are loaded with the lock of a set, whose names are distinct, have the version that the lock
    -- was written for, without space around it and "unversioned" for a blank one. They are marked as
    -- locked exactly if each of their templates has the fingerprint that the template of its name had in the
    -- set; the version recorded with a run is then the version itself, and ends in "-dirty" otherwise.
    pub load_prompt_set-build_lock :
        (lower : Text → Text) (L : TemplateLib) (read : Text → Option Text) (now : PromptSet)
        → load_prompt_set lower L sha256 read (some (build_lock sha256 s version)) ≡ ok now
        → (now.version ≡ or_unversioned (strip version))
          × ((now.locked ≡ true) ↔ Same s now.templates)
          × (Same s now.templates → tracked_version now ≡ or_unversioned (strip version))
          × (¬ Same s now.templates
              → tracked_version now ≡ or_unversioned (strip version) ++ codes "-dirty")
    unfolding load_prompt_set read_lock build_lock tracked_version
    load_prompt_set-build_lock lower L read now e =
        elim (Result-cases (load_templates lower L read)) [
          | inl (f, k) ↦ absurd (clash f (rw (k, load_prompt_set) at e))
          | inr (ts, k) ↦ stored ts (same ts (rw (k, load_prompt_set) at e))
        ]
      where
        loaded : Dict PromptTemplate → PromptSet
        loaded ts = record {
          version = or_unversioned (strip version);
          templates = ts;
          locked = is_clean sha256 (hashes_of sha256 (sorted_items s.templates)) ts;
        }

        clash : (f : PromptError) → raised f ≡ ok now → ⊥
        clash f h = cc

        same : (ts : Dict PromptTemplate) → ok (loaded ts) ≡ ok now → loaded ts ≡ now
        same ts h = cc h

        stored :
            (ts : Dict PromptTemplate)
            → loaded ts ≡ now
            → (now.version ≡ or_unversioned (strip version))
              × ((now.locked ≡ true) ↔ Same s now.templates)
              × (Same s now.templates → tracked_version now ≡ or_unversioned (strip version))
              × (¬ Same s now.templates
                  → tracked_version now ≡ or_unversioned (strip version) ++ codes "-dirty")
        stored ts h =
            let clean = is_clean-build_lock ts in
            rw (← h) (
              refl,
              clean,
              (λ k. rw (clean.1 k) refl),
              (λ k.
                  elim (Bool-cases
                    (is_clean sha256 (hashes_of sha256 (sorted_items s.templates)) ts)) [
                      | inl x ↦ absurd (k (clean.0 x))
                      | inr x ↦ rw x refl
                    ]),
            )
