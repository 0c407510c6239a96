-- ===== src/Tests/Prompts.antt =====
-- Runs of src/app/rag/prompts.py.
use llmops_rag_api.Evaluation.Dataset.{is_seen, GoldenCase}
use llmops_rag_api.Rag.Prompts.{
  text_leb, TemplateLib, PromptSet, load_prompt_set, build_lock, or_unversioned,
  template_placeholders, PromptTemplate, validate, tracked_version, ok,
}
use llmops_rag_api.Text.{is_space, Text, codes, text_eq, contains, strip}
use llmops_rag_api.Prelude.{
  ◌≡◌, refl, some, true, false, [], ◌∷◌, All, List, Option, ℕ, ◌↔◌, Bool, ◌++◌, ◌==◌, if◌then◌else◌,
}
use llmops_rag_api.Rag.Prompts.Lock.{Same, load_prompt_set-build_lock}
use llmops_rag_api.Rag.Prompts.Valid.{Has, load_prompt_set-Has}
use llmops_rag_api.Dict.{lookup, IsDict}
use llmops_rag_api.Rag.Pipeline.Query.{refusal_marker, QueryResult}
use llmops_rag_api.Evaluation.Metrics.{score_case}

-- One whose texts have a placeholder only where they begin with "$", and then the two of the user prompt.
abbrev identifiers : Text → List Text
identifiers [] = []
identifiers (c ∷ s) = if c == b'$' then codes "question" ∷ codes "context" ∷ [] else []

abbrev template_lib : TemplateLib
template_lib = record {
  is_valid = λ t. true;
  get_identifiers = identifiers;
  substitute = λ t values. some t;
}

abbrev system_text : Text
system_text = codes " i don't know based on the provided documents"

-- The files of the templates.
abbrev files : Text → Text → Option Text
files user name = if text_eq name (codes "answer_user") then some user else some system_text

abbrev loaded_set : Text → PromptSet
loaded_set user = record {
  version = codes "v2";
  templates =
      (
        codes "answer_system",
        record { name = codes "answer_system"; text = refusal_marker; placeholders = [] },
      )
      ∷ (
        codes "answer_user",
        record {
          name = codes "answer_user";
          text = user;
          placeholders = codes "context" ∷ codes "question" ∷ [];
        },
      )
      ∷ (
        codes "no_context_answer",
        record { name = codes "no_context_answer"; text = refusal_marker; placeholders = [] },
      )
      ∷ [];
  locked = true;
}

abbrev old_set : PromptSet
old_set = loaded_set (codes "$a")

old_set-IsDict : IsDict old_set.templates
unfolding IsDict lookup text_eq
old_set-IsDict = (refl, (refl, (refl, tt)))

abbrev now_set : PromptSet
now_set = record (loaded_set (codes "$b")) { locked = false }

load_now :
    load_prompt_set
      (λ t. t)
      template_lib
      (λ t. t)
      (files (codes "$b"))
      (some (build_lock (λ t. t) old_set (codes "v2 ")))
    ≡ ok now_set
unfolding load_prompt_set build_lock text_eq contains strip lookup validate is_space is_seen
    text_leb
load_now = refl

load_prompt_set-build_lock_example :
    (now_set.version ≡ or_unversioned (strip (codes "v2 ")))
    × ((false ≡ true) ↔ Same (λ t. t) old_set now_set.templates)
    × (Same (λ t. t) old_set now_set.templates
        → tracked_version now_set ≡ or_unversioned (strip (codes "v2 ")))
    × (¬ Same (λ t. t) old_set now_set.templates
        → tracked_version now_set ≡ or_unversioned (strip (codes "v2 ")) ++ codes "-dirty")
load_prompt_set-build_lock_example =
    load_prompt_set-build_lock (λ t. t) old_set (codes "v2 ") old_set-IsDict (λ t. t) template_lib
      (files (codes "$b")) now_set load_now

load_prompt_set-Has_example :
    All (λ p. Has (λ t. t) template_lib now_set p.0 p.1) template_placeholders
    × ((t : PromptTemplate) × (lookup (codes "no_context_answer") now_set.templates ≡ some t)
        × ((digit : ℕ → Bool) (g : GoldenCase) (result : QueryResult) (latency : ℕ)
            → result.answer ≡ t.text
            → (score_case (λ s. s) digit g result latency).refused ≡ true))
load_prompt_set-Has_example =
    load_prompt_set-Has (λ t. t) template_lib (λ t. t) (files (codes "$b"))
      (some (build_lock (λ t. t) old_set (codes "v2 "))) now_set load_now
