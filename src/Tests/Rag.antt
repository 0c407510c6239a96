-- ===== src/Tests/Rag.antt =====
-- Tests of the models of src/app/rag.
use llmops_rag_api.Text.{Text, codes, decimal}
use llmops_rag_api.Rag.Chunking.{split_text, split_paragraphs, normalize, hard_split}
use llmops_rag_api.Prelude.{
  ◌≡◌, Option, some, List, [], ◌∷◌, length, ◌≤◌, none, ◌<◌, refl, ◌⊎◌, inl, inr, map, arith, All,
  take,
}
use llmops_rag_api.Rag.Chunking.HardSplit.{flatten_all, hard_split-rejoin}
use llmops_rag_api.Rag.Chunking.Bounds.{IsGood, split_text-IsGood}
use llmops_rag_api.Rag.Chunking.Coverage.{Covered, split_text-Covered}

-- Two paragraphs of nine and eleven characters and one of thirty, with blanks to tidy.
page : Text
page = codes "  one  two\r\n\r\nthree four\tsix\n \nabcdefghijklmnopqrstuvwxyz0123"

chunks_of_page : Option (List Text)
unfolding split_text page
chunks_of_page = split_text page 20 5

abbrev second_chunk : Text
second_chunk = codes "e two\n\nthree four six"

abbrev chunk_texts : List Text
chunk_texts =
    codes "one two" ∷ second_chunk ∷ codes "abcdefghijklmnopqrst" ∷ codes "pqrstuvwxyz0123" ∷ []

-- The second chunk carries the tail of the first, and is longer than the size of 20.
page_chunks : (chunks_of_page ≡ some chunk_texts) × (length second_chunk ≡ 21)
unfolding chunks_of_page normalize split_paragraphs
page_chunks = (refl, refl)

-- The paragraph split leaves the white space around the pieces to `strip`.
page_paragraphs :
    split_paragraphs 0 (normalize page)
    ≡ codes "one two" ∷ codes "three four six" ∷ codes "abcdefghijklmnopqrstuvwxyz0123" ∷ []
unfolding split_paragraphs normalize page
page_paragraphs = refl

split_text-IsGood_example :
    ((20 ≤ 5) × (split_text page 20 5 ≡ none))
    ⊎ ((5 < 20)
        × (chunks : List Text) × (split_text page 20 5 ≡ some chunks)
        × All (IsGood 27) chunks)
split_text-IsGood_example = split_text-IsGood page 20 5

split_text-Covered_example : Covered (codes "three four six") chunk_texts
unfolding chunks_of_page split_paragraphs normalize
split_text-Covered_example =
    split_text-Covered page (codes "three four six") 20 5 {chunks = chunk_texts} refl
      (inr (inl refl)) (λ e. cc) (omega arith)

abbrev letters : Text
letters = codes "abcdefghijklmnopqrstuvwxyz0123"

hard_split-rejoin_example : flatten_all (map (take 15) (hard_split letters 20 5)) ≡ letters
hard_split-rejoin_example = hard_split-rejoin letters 20 5 (omega arith)

decimal_digits : decimal 1207 ≡ codes "1207"
unfolding decimal
decimal_digits = refl
