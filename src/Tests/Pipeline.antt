-- ===== src/Tests/Pipeline.antt =====
-- Runs of ingest and query of src/app/rag/pipeline.py.
use llmops_rag_api.Prelude.{
  ◌++◌, some, List, ℕ, Option, none, pos, ◌≤◌, ◌≡◌, refl, ◌⊎◌, true, [], ◌∷◌, map, arith, length,
  All,
}
use llmops_rag_api.Tests.Memory.{chroma, gcs, tar, Slot}
use llmops_rag_api.Tests.Storage.{fixed, fixed-IsLawful}
use llmops_rag_api.Rag.Pipeline.{Provider, Settings, Prompts, Call, embedded}
use llmops_rag_api.Rag.Pipeline.Accounts.{Failed, Answered, query-outcome}
use llmops_rag_api.Rag.Pipeline.Unbilled.{repeat, repeat-unbilled}
use llmops_rag_api.Rag.Chunking.{chunk_document, split_text, normalize, Chunk, make_chunk}
use llmops_rag_api.Rag.VectorStore.{search, add}
use llmops_rag_api.Rag.Pipeline.Ingest.{Document, State, IngestEnd, ingest, prepare}
use llmops_rag_api.Rag.Pipeline.Query.{QueryEnd, over_budget, query}
use llmops_rag_api.Text.{codes, Text, text_eq}
use llmops_rag_api.Tracking.SpendGuard.{
  SpendGuard, record_cost, BudgetExceeded, check, enabled, roll_window, add_spend,
}
use llmops_rag_api.Persistence.{Tar}
use llmops_rag_api.Rounding.{rounding_half_up}
use llmops_rag_api.Rag.Chroma.{Item}
use llmops_rag_api.Tracking.SpendGuard.Service.{at_once}
use llmops_rag_api.Tracking.Cost.{estimate_cost_usd, price_for}
use llmops_rag_api.Rag.Pipeline.Client.{Api, embed}
use llmops_rag_api.Rag.Pipeline.Ingest

abbrev pub provider : Provider
provider = record {
  embed = λ texts. some (record { vectors = map (λ t. pos 1 ∷ []) texts; tokens = 7 });
  complete = λ system user. some (record {
    text = codes "Cloud Run [1]";
    model = codes "gpt-4o-mini";
    prompt_tokens = 100;
    completion_tokens = 20;
  });
}

abbrev pub settings : Settings
settings = record {
  chat_model = codes "gpt-4o-mini";
  embedding_model = codes "text-embedding-3-small";
  top_k = 4;
  min_similarity = 28_000_000;
  min_similarity_ratio = 60_000_000;
  inr_rate = 8_800;
  chunk_size = 80;
  chunk_overlap = 8;
  max_ingest_chars = 1000;
  snapshot_on_ingest = true;
}

abbrev pub prompts : Prompts
prompts = record {
  answer_system = codes "system";
  no_context_answer = codes "I don't know based on the provided documents.";
  render_user = λ context question. context ++ question;
}

-- A budget of 0.25 USD, unspent.
abbrev pub guard : SpendGuard
guard = record {
  budget = 25_000_000;
  window = 86_400_000_000_000;
  spent = 0;
  calls = 0;
  window_started = 0;
}

abbrev question : Text
question = codes "where?"

abbrev run : QueryEnd × SpendGuard × List Call
run =
    query fixed provider settings rounding_half_up (λ t. t) prompts (at_once 5) (at_once 9) question
      none tt guard

-- 7 tokens of the embedding at 2, 100 and 20 tokens of the chat model at 15 and 60.
run_recorded : run.1.spent ≡ 2_714
unfolding query record_cost check enabled roll_window search estimate_cost_usd price_for text_eq
    add_spend
run_recorded = refl

query-outcome_example :
    ((e : BudgetExceeded) × ((check rounding_half_up (at_once 5) guard).0 ≡ some e)
      × (run ≡ (over_budget e, (check rounding_half_up (at_once 5) guard).1, [])))
    ⊎ (((check rounding_half_up (at_once 5) guard).0 ≡ none)
        × (Failed fixed fixed-IsLawful provider settings rounding_half_up question tt
              (check rounding_half_up (at_once 5) guard).1
              run
            ⊎ Answered fixed fixed-IsLawful provider settings rounding_half_up question 4
                (at_once 9)
                (check rounding_half_up (at_once 5) guard).1
                run))
query-outcome_example =
    query-outcome fixed fixed-IsLawful provider settings rounding_half_up (λ t. t) prompts
      (at_once 5) (at_once 9) question none tt guard

abbrev document : Document
document = record {
  text = codes "Cloud Run scales to none.";
  doc_id = some (codes "run");
  metadata = [];
}

abbrev state : State (List Item) Slot
state = record {
  guard = guard;
  instance_state = record { dir = []; snapshot_generation = 0 };
  bucket = (0, none);
}

abbrev nobody : ℕ → Slot → Slot
nobody n b = b

abbrev ingest_run : IngestEnd × State (List Item) Slot × List Call
ingest_run =
    ingest gcs chroma tar true (codes "data" ∷ []) provider settings rounding_half_up nobody
      (λ t. t) (at_once 5) (at_once 9) (document ∷ []) state

abbrev ingest_checked : Option BudgetExceeded × SpendGuard
ingest_checked = check rounding_half_up (at_once 5) guard

abbrev checked_state : State (List Item) Slot
checked_state = record state { guard = ingest_checked.1 }

abbrev fixed_state : State Unit Slot
fixed_state = record {
  guard = guard;
  instance_state = record { dir = tt; snapshot_generation = 0 };
  bucket = (0, none);
}

abbrev no_tar : Tar Unit
no_tar = record {
  fresh = tt;
  pack = λ d. some [];
  unpack = λ p. some tt;
  partial = λ p. tt;
  size = λ p. 0;
}

abbrev refused_chunk : Chunk
refused_chunk = make_chunk (codes "run") [] 0 (codes "Cloud Run scales to none.")

repeat-unbilled_example :
    let (calls, t) =
      repeat gcs fixed no_tar true
        (codes "data" ∷ [])
        provider
        settings
        rounding_half_up
        nobody
        (λ t. t)
        (document ∷ [])
        (λ n. at_once 5)
        (λ n. at_once 9)
        1000
        fixed_state in
    (length calls ≡ 1000)
    × All (λ call. call ≡ embedded (codes "Cloud Run scales to none." ∷ [])) calls
    × (t.guard.spent ≤ 0)
unfolding prepare make_chunk add chunk_document split_text normalize
repeat-unbilled_example =
    repeat-unbilled gcs fixed no_tar true (codes "data" ∷ []) provider settings rounding_half_up
      nobody (λ t. t) (document ∷ []) (λ n. at_once 5) (λ n. at_once 9) 1000 fixed_state
      refused_chunk [] (codes "run" ∷ []) (record { vectors = (pos 1 ∷ []) ∷ []; tokens = 7 })
      (omega arith) refl refl refl

-- A response whose items stand in another order than the texts.
abbrev mixed_api : Api
mixed_api = record {
  create_embeddings = λ model texts. some (record {
    data_ =
        record { index = 1; embedding = pos 11 ∷ [] }
        ∷ record { index = 0; embedding = pos 10 ∷ [] }
        ∷ [];
    total_tokens = none;
  });
  create_completion = λ model system user. none;
}

embed_mixed :
    embed mixed_api (codes "small") (codes "a" ∷ codes "b" ∷ [])
    ≡ some (record { vectors = (pos 10 ∷ []) ∷ (pos 11 ∷ []) ∷ []; tokens = 0 })
unfolding embed
embed_mixed = refl
