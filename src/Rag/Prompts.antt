-- ===== src/Rag/Prompts.antt =====
-- src/app/rag/prompts.py: the templates, their validation, and the lock that pins a version to their text.
-- SHA-256, `str.lower`, `string.Template`, the file system and json are parameters: `read` gives the text
-- of the file of a template, `none` an `OSError`, and a lock is what json makes of its file, if it can be read.
pub mod Lock
pub mod Valid
use llmops_rag_api.Prelude.{
  List, Option, Bool, true, false, none, some, not, ◌&&◌, ◌||◌, ◌==◌, [], ◌∷◌, ◌++◌, if◌then◌else◌,
  ltb, take,
}
use llmops_rag_api.Text.{Text, codes, text_eq, is_empty, contains, strip}
use llmops_rag_api.Dict.{Dict, lookup}
use llmops_rag_api.Evaluation.Dataset.{is_seen}
use llmops_rag_api.Rag.Pipeline.Query.{refusal_marker}

-- The templates and the placeholders that each must have.
abbrev pub template_placeholders : List (Text × List Text)
template_placeholders =
    (codes "answer_system", [])
    ∷ (codes "answer_user", codes "context" ∷ codes "question" ∷ [])
    ∷ (codes "no_context_answer", [])
    ∷ []

abbrev pub must_promise_refusal : List Text
must_promise_refusal = codes "answer_system" ∷ codes "no_context_answer" ∷ []

abbrev pub unversioned : Text
unversioned = codes "unversioned"

pub data PromptError : Type 0 where
  unreadable empty no_refusal malformed wrong_placeholders : Text → PromptError
  missing_values unknown_prompt cannot_substitute : Text → PromptError

pub data Result (A : Type 0) : Type 0 where
  raised : PromptError → Result A
  ok : A → Result A

pub record PromptTemplate : Type 0 where
  pub name : Text
  pub text : Text
  pub placeholders : List Text

pub record PromptSet : Type 0 where
  pub version : Text
  pub templates : Dict PromptTemplate
  pub locked : Bool

-- The fields of the lock, as far as it has them.
pub record PromptLock : Type 0 where
  pub lock_version : Option Text
  pub lock_fingerprint : Text
  pub lock_templates : Option (Dict Text)

abbrev pub keys_of : Dict Text → List Text
keys_of [] = []
keys_of ((k, v) ∷ d) = k ∷ keys_of d

-- `string.Template`; `substitute` gives none where it raises.
pub record TemplateLib : Type 0 where
  pub is_valid : Text → Bool
  pub get_identifiers : Text → List Text
  pub substitute : Text → Dict Text → Option Text

-- `set(xs) <= set(ys)`
unfoldable pub all_seen : List Text → List Text → Bool
all_seen [] ys = true
all_seen (x ∷ xs) ys = is_seen x ys && all_seen xs ys

-- `s <= t` of two texts.
unfoldable pub text_leb : Text → Text → Bool
text_leb [] t = true
text_leb (a ∷ s) [] = false
text_leb (a ∷ s) (b ∷ t) = ltb a b || (a == b && text_leb s t)

module _ {V : Type 0} where
  unfoldable pub insert_item : Text × V → Dict V → Dict V
  insert_item x [] = x ∷ []
  insert_item x (y ∷ d) =
      let rest = insert_item x d in if text_leb x.0 y.0 then x ∷ y ∷ d else y ∷ rest

  -- `sorted(d.items())`, for a dictionary with each key once.
  unfoldable pub sorted_items : Dict V → Dict V
  unfolding insert_item
  sorted_items [] = []
  sorted_items (x ∷ d) = insert_item x (sorted_items d)

-- `"\n".join(lines)`
unfoldable pub join_lines : List Text → Text
join_lines [] = []
join_lines (s ∷ []) = s
join_lines (s ∷ t ∷ ss) = let rest = join_lines (t ∷ ss) in s ++ (b'\n' ∷ rest)

unfoldable pub tracked_version : PromptSet → Text
tracked_version s = if s.locked then s.version else s.version ++ codes "-dirty"

-- `s[name]`
unfoldable pub get_prompt : PromptSet → Text → Result PromptTemplate
get_prompt s name = elim (lookup name s.templates) [
  | none ↦ raised (unknown_prompt name)
  | some t ↦ ok t
]

-- `version` of a lock.
abbrev pub or_unversioned : Text → Text
or_unversioned [] = unversioned
or_unversioned (c ∷ s) = c ∷ s

abbrev pub text_or_empty : Option Text → Text
text_or_empty none = []
text_or_empty (some t) = t

abbrev pub dict_or_empty : Option (Dict Text) → Dict Text
dict_or_empty none = []
dict_or_empty (some d) = d

-- `locked_hashes.get(name) == t.fingerprint`
abbrev pub is_hash : Option Text → Text → Bool
is_hash none h = false
is_hash (some g) h = text_eq g h

module _ (sha256 : Text → Text) where
  unfoldable pub fingerprint : Text → Text
  fingerprint text = take 12 (sha256 text)

  unfoldable pub hashes_of : Dict PromptTemplate → Dict Text
  unfolding fingerprint
  hashes_of [] = []
  hashes_of ((name, t) ∷ ts) = let rest = hashes_of ts in (name, fingerprint t.text) ∷ rest

  abbrev hash_lines : Dict Text → List Text
  hash_lines [] = []
  hash_lines ((name, h) ∷ hs) = (name ++ (codes ":" ++ h)) ∷ hash_lines hs

  unfoldable pub set_fingerprint : PromptSet → Text
  unfolding hashes_of sorted_items join_lines
  set_fingerprint s = fingerprint (join_lines (hash_lines (hashes_of (sorted_items s.templates))))

  -- No template has another fingerprint than the lock.
  unfoldable pub is_clean : Dict Text → Dict PromptTemplate → Bool
  unfolding fingerprint
  is_clean hashes [] = true
  is_clean hashes ((name, t) ∷ ts) =
      is_hash (lookup name hashes) (fingerprint t.text) && is_clean hashes ts

  unfoldable pub read_lock : Option PromptLock → Dict PromptTemplate → Text × Bool
  unfolding is_clean
  read_lock none ts = (unversioned, false)
  read_lock (some lock) ts = (
    or_unversioned (strip (text_or_empty lock.lock_version)),
    is_clean (dict_or_empty lock.lock_templates) ts,
  )

  unfoldable pub build_lock : PromptSet → Text → PromptLock
  unfolding hashes_of sorted_items set_fingerprint
  build_lock s version = record {
    lock_version = some version;
    lock_fingerprint = set_fingerprint s;
    lock_templates = some (hashes_of (sorted_items s.templates));
  }

module _ (lower : Text → Text) (L : TemplateLib) where
  -- `none` where nothing is raised.
  unfoldable pub validate : Text → Text → List Text → Option PromptError
  unfolding all_seen
  validate name text placeholders =
      let found = L.get_identifiers text in
      if is_empty text
      then some (empty name)
      else if is_seen name must_promise_refusal && not (contains (lower text) refusal_marker)
      then some (no_refusal name)
      else if not (L.is_valid text)
      then some (malformed name)
      else if not (all_seen found placeholders && all_seen placeholders found)
      then some (wrong_placeholders name)
      else none

  abbrev pub put_template :
      PromptTemplate → Result (Dict PromptTemplate) → Result (Dict PromptTemplate)
  put_template t (raised e) = raised e
  put_template t (ok ts) = ok ((t.name, t) ∷ ts)

  -- The loop over the declared templates, whose names are distinct.
  unfoldable pub load_from :
      (Text → Option Text) → List (Text × List Text) → Result (Dict PromptTemplate)
  unfolding validate
  load_from read [] = ok []
  load_from read ((name, placeholders) ∷ more) =
      let rest = load_from read more in
      elim (read name) [
        | none ↦ raised (unreadable name)
        | some raw ↦
            let text = strip raw in
            elim (validate name text placeholders) [
              | some e ↦ raised e
              | none ↦
                  put_template (record { name = name; text = text; placeholders = placeholders })
                    rest
            ]
      ]

  unfoldable pub load_templates : (Text → Option Text) → Result (Dict PromptTemplate)
  unfolding load_from
  load_templates read = load_from read template_placeholders

  -- A value is missing, or the text is filled in.
  unfoldable pub render : PromptTemplate → Dict Text → Result Text
  unfolding all_seen
  render t values =
      if not (all_seen t.placeholders (keys_of values))
      then raised (missing_values t.name)
      else elim (L.substitute t.text values) [
        | none ↦ raised (cannot_substitute t.name)
        | some s ↦ ok s
      ]

  unfoldable pub load_prompt_set :
      (Text → Text) → (Text → Option Text) → Option PromptLock → Result PromptSet
  unfolding load_templates read_lock
  load_prompt_set sha256 read lock = elim (load_templates read) [
    | raised e ↦ raised e
    | ok ts ↦
        let (version, locked) = read_lock sha256 lock ts in
        ok (record { version = version; templates = ts; locked = locked })
  ]
