-- ===== src/Monitoring/Drift.antt =====
-- src/app/monitoring/drift.py: the reference, the window, their comparison and the diagnosis. A rate or a
-- mean is kept as the sum that it is computed from, over the number of records, and two of them are compared
-- by cross multiplication; a z value is compared with its bound by squares. Nothing is rounded
-- but what the source rounds. Similarities are in units of 1e-4, and not below 0, since the floor of the search
-- drops such hits; costs are in units of 1e-8 USD, latencies in units of 1e-2 ms. The text of a finding is left out.
pub mod Diagnosis
pub mod Quiet
use llmops_rag_api.Evaluation.Dataset.{is_seen}
use llmops_rag_api.Prelude.{
  ℕ, Bool, List, ◌+◌, ◌-◌, ◌*◌, min, true, false, not, ◌&&◌, ◌||◌, Option, none, some, [], ◌∷◌,
  ◌++◌, map, ◌==◌, if◌then◌else◌, length, pos_part, ltb, leb,
}
use llmops_rag_api.Monitoring.Ks.{ks_statistic, reaches_threshold}
use llmops_rag_api.Text.{Text, text_eq, is_empty}
use llmops_rag_api.Rounding.{Rounding}
use llmops_rag_api.Evaluation.Metrics.{CaseScore, nth, total_of}
use llmops_rag_api.Prelude.Sort.{sort_by}

abbrev pub min_window : ℕ
min_window = 30

-- In units of 1e-3.
abbrev pub z_warn : ℕ
z_warn = 1_960

abbrev pub z_alert : ℕ
z_alert = 2_576

abbrev pub ks_warn : ℕ
ks_warn = 1_358

abbrev pub ks_alert : ℕ
ks_alert = 1_628

pub record QueryRecord : Type 0 where
  pub refused : Bool
  pub grounded : Bool
  pub top_similarity : ℕ
  pub retrieved_chunks : ℕ
  pub cost_usd : ℕ
  pub latency_ms : ℕ
  pub prompt_version : Text
  pub started_at : ℕ

pub record WindowStats : Type 0 where
  pub n : ℕ
  pub refusals : ℕ
  pub ungrounded : ℕ
  pub similarity_sum : ℕ
  pub chunk_sum : ℕ
  pub cost_sum : ℕ
  pub p95_latency_ms : ℕ
  pub similarities : List ℕ
  pub prompt_versions : List Text

-- What `compare` and `diagnose` read of the reference.
pub record Baseline : Type 0 where
  pub n : ℕ
  pub refusals : ℕ
  pub ungrounded : ℕ
  pub similarity_sum : ℕ
  pub chunk_sum : ℕ
  pub similarities : List ℕ
  pub prompt_version : Text

abbrev pub count_true : List Bool → ℕ
count_true [] = 0
count_true (b ∷ bs) = (if b then 1 else 0) + count_true bs

-- `{r.prompt_version for r in records if r.prompt_version}`; the order is left as it is found.
unfoldable pub versions_of : List QueryRecord → List Text
versions_of [] = []
versions_of (r ∷ rs) =
    let rest = versions_of rs in
    if is_empty r.prompt_version || is_seen r.prompt_version rest
    then rest
    else r.prompt_version ∷ rest

unfoldable pub summarise_window : Rounding → List QueryRecord → WindowStats
unfolding versions_of
summarise_window rounding rs =
    let n = length rs in
    let latencies = sort_by (λ x. x) (map (λ (r : QueryRecord). r.latency_ms) rs) in
    record {
      n = n;
      refusals = count_true (map (λ (r : QueryRecord). r.refused) rs);
      ungrounded = count_true (map (λ (r : QueryRecord). not r.grounded) rs);
      similarity_sum = total_of (map (λ (r : QueryRecord). r.top_similarity) rs);
      chunk_sum = total_of (map (λ (r : QueryRecord). r.retrieved_chunks) rs);
      cost_sum = total_of (map (λ (r : QueryRecord). r.cost_usd) rs);
      p95_latency_ms = nth (min (n - 1) (rounding.round_ratio (95 * (n - 1)) 100)) latencies;
      similarities = map (λ (r : QueryRecord). r.top_similarity) rs;
      prompt_versions = versions_of rs;
    }

-- `Baseline.from_eval` of the answerable cases and the version of the prompts; `none` is the `ValueError`.
unfoldable pub from_eval : List CaseScore → Text → Option Baseline
from_eval [] version = none
from_eval (s ∷ ss) version =
    let scores = s ∷ ss in
    let sims = map (λ (x : CaseScore). pos_part x.top_similarity) scores in
    some (record {
      n = length scores;
      refusals = count_true (map (λ (x : CaseScore). x.refused) scores);
      ungrounded = count_true (map (λ (x : CaseScore). x.retrieved_chunks == 0) scores);
      similarity_sum = total_of sims;
      chunk_sum = total_of (map (λ (x : CaseScore). x.retrieved_chunks) scores);
      similarities = sims;
      prompt_version = version;
    })

-- `two_proportion_z(a / n, n, b / m, m) >= bound`, for a positive bound.
unfoldable pub z_reaches : ℕ → ℕ → ℕ → ℕ → ℕ → Bool
z_reaches bound a n b m =
    ltb 0 n
    && (ltb 0 m
        && (ltb 0 ((a + b) * (n + m - (a + b)))
            && (ltb (b * n) (a * m)
                && leb (bound * bound * ((a + b) * (n + m - (a + b)) * (n * m)))
                    (1_000_000 * ((a * m - b * n) * (a * m - b * n) * (n + m))))))

pub data Signal : Type 0 where
  window refusal_rate ungrounded_rate top_similarity retrieved_chunks prompt_version : Signal

pub data Severity : Type 0 where
  warn alert : Severity

pub record Finding : Type 0 where
  pub signal : Signal
  pub severity : Severity

-- A finding, if there is one.
abbrev pub found : Signal → Bool → Bool → List Finding
found signal warns alerts =
    if warns then record { signal = signal; severity = if alerts then alert else warn } ∷ [] else []

unfoldable pub moved : ℕ → Baseline → WindowStats → Bool
moved coefficient b w =
    reaches_threshold (ks_statistic w.similarities b.similarities) (length w.similarities)
      (length b.similarities) coefficient

-- `shortfall >= 1 - kept / of`, where the reference has chunks.
unfoldable pub falls_short : ℕ → ℕ → Baseline → WindowStats → Bool
falls_short kept of_ b w =
    ltb 0 b.chunk_sum && leb (of_ * (w.chunk_sum * b.n)) (kept * (b.chunk_sum * w.n))

unfoldable pub other_version : Baseline → List Text → Bool
other_version b [] = false
other_version b (v ∷ vs) =
    (not (is_empty v) && not (text_eq v b.prompt_version)) || other_version b vs

unfoldable pub compare_window : Baseline → WindowStats → List Finding
unfolding z_reaches moved falls_short other_version
compare_window b w =
    if ltb w.n min_window
    then record { signal = window; severity = warn } ∷ []
    else found refusal_rate (z_reaches z_warn w.refusals w.n b.refusals b.n)
        (z_reaches z_alert w.refusals w.n b.refusals b.n)
      ++ (found ungrounded_rate (z_reaches z_warn w.ungrounded w.n b.ungrounded b.n)
            (z_reaches z_alert w.ungrounded w.n b.ungrounded b.n)
          ++ (found top_similarity (moved ks_warn b w) (moved ks_alert b w)
              ++ (found retrieved_chunks (falls_short 3 4 b w) (falls_short 3 5 b w)
                  ++ found prompt_version (other_version b w.prompt_versions) false)))

abbrev pub same_signal : Signal → Signal → Bool
same_signal window window = true
same_signal refusal_rate refusal_rate = true
same_signal ungrounded_rate ungrounded_rate = true
same_signal top_similarity top_similarity = true
same_signal retrieved_chunks retrieved_chunks = true
same_signal prompt_version prompt_version = true
same_signal _ _ = false

-- `signal in signals`
unfoldable pub has_signal : Signal → List Finding → Bool
has_signal s [] = false
has_signal s (f ∷ fs) = same_signal s f.signal || has_signal s fs

-- The texts of `diagnose`.
pub data Verdict : Type 0 where
  no_drift not_enough retrieval_regression off_topic off_topic_scores content_gap scores_moved
        other_drift :
      Verdict

abbrev pub no_findings : List Finding → Bool
no_findings [] = true
no_findings (_ ∷ _) = false

unfoldable pub scores_fell : Baseline → WindowStats → Bool
scores_fell b w = ltb (w.similarity_sum * b.n) (b.similarity_sum * w.n)

unfoldable pub diagnose : Baseline → WindowStats → List Finding → Verdict
unfolding has_signal scores_fell
diagnose b w fs =
    let refusing = has_signal refusal_rate fs in
    let ungrounded = has_signal ungrounded_rate fs in
    let moved = has_signal top_similarity fs in
    let fewer = has_signal retrieved_chunks fs in
    if no_findings fs
    then no_drift
    else if has_signal window fs
    then not_enough
    else if refusing && (fewer && not ungrounded)
    then retrieval_regression
    else if refusing && ungrounded
    then off_topic
    else if refusing && (moved && scores_fell b w)
    then off_topic_scores
    else if refusing && not moved
    then content_gap
    else if moved && not refusing
    then scores_moved
    else other_drift
