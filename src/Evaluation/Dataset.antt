-- ===== src/Evaluation/Dataset.antt =====
-- src/app/evaluation/dataset.py: the cases of the golden set, and how they are read from the lines
-- of a file. `json.loads` is a parameter: `none` is a JSONDecodeError.
use llmops_rag_api.Prelude.{
  ◌++◌, Option, Bool, ℕ, List, ◌∷◌, ◌+◌, true, false, not, ◌||◌, none, some, [], ◌==◌,
  if◌then◌else◌,
}
use llmops_rag_api.Text.{Text, strip, text_eq, codes, is_empty, decimal}

pub record GoldenCase : Type 0 where
  pub id : Text
  pub question : Text
  pub expected_doc : Option Text
  pub expected_keywords : List Text
  pub must_be_grounded : Bool
  pub notes : Text

unfoldable pub is_refusal_case : GoldenCase → Bool
is_refusal_case c = not c.must_be_grounded

-- The fields of a line, as far as it has them.
pub record RawCase : Type 0 where
  pub raw_id : Option Text
  pub raw_question : Text
  pub raw_expected_doc : Option Text
  pub raw_expected_keywords : List Text
  pub raw_must_be_grounded : Bool
  pub raw_notes : Text

-- The errors, each with the number of its line.
pub data LoadError : Type 0 where
  invalid_json : ℕ → LoadError
  duplicate_id : ℕ → Text → LoadError
  no_question : ℕ → Text → LoadError
  no_cases : LoadError

pub data Loaded : Type 0 where
  failed : LoadError → Loaded
  loaded : List GoldenCase → Loaded

-- `not line or line.startswith("#")`
abbrev pub is_skipped : Text → Bool
is_skipped [] = true
is_skipped (c ∷ _) = c == b'#'

-- `record.get("id") or f"case-{line_number}"`
abbrev pub case_id_of : Option Text → ℕ → Text
case_id_of none n = codes "case-" ++ decimal n
case_id_of (some []) n = codes "case-" ++ decimal n
case_id_of (some (c ∷ s)) n = c ∷ s

-- `case_id in seen`
unfoldable pub is_seen : Text → List Text → Bool
is_seen id [] = false
is_seen id (s ∷ seen) = text_eq s id || is_seen id seen

unfoldable pub make_case : Text → RawCase → GoldenCase
make_case id raw = record {
  id = id;
  question = strip raw.raw_question;
  expected_doc = raw.raw_expected_doc;
  expected_keywords = raw.raw_expected_keywords;
  must_be_grounded = raw.raw_must_be_grounded;
  notes = raw.raw_notes;
}

abbrev pub put_case : GoldenCase → Loaded → Loaded
put_case c (failed e) = failed e
put_case c (loaded cs) = loaded (c ∷ cs)

module _ (parse : Text → Option RawCase) where
  -- The loop over the lines, from the number `n` on.
  unfoldable pub load_lines : ℕ → List Text → List Text → Loaded
  unfolding is_seen make_case
  load_lines n seen [] = loaded []
  load_lines n seen (raw ∷ lines) =
      let line = strip raw in
      let skipped = load_lines (n + 1) seen lines in
      if is_skipped line then skipped else elim (parse line) [
        | none ↦ failed (invalid_json n)
        | some r ↦
            let id = case_id_of r.raw_id n in
            let rest = load_lines (n + 1) (id ∷ seen) lines in
            if is_seen id seen
            then failed (duplicate_id n id)
            else if is_empty (strip r.raw_question)
            then failed (no_question n id)
            else put_case (make_case id r) rest
      ]

  abbrev pub some_cases : Loaded → Loaded
  some_cases (failed e) = failed e
  some_cases (loaded []) = failed no_cases
  some_cases (loaded (c ∷ cs)) = loaded (c ∷ cs)

  unfoldable pub load_cases : List Text → Loaded
  unfolding load_lines
  load_cases lines = some_cases (load_lines 1 [] lines)
