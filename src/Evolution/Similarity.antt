-- ===== src/Evolution/Similarity.antt =====
-- pkg/reef/evolution/server/gate.go: how similar two texts are. Floats and the library's functions on texts are
-- arguments.
use reef.Prelude.{
  ℕ, ◌+◌, ◌-◌, ◌*◌, Bool, ◌||◌, List, [], ◌∷◌, ◌==◌, none, some, String, str_append, lookup, insert,
  leb, if◌then◌else◌, length, has,
}
use reef.Prelude.Texts.{byte_len}

-- The operations of `float64` that the review uses, and its format "%.2f".
pub record Floats (F : Type 0) : Type 0 where
  pub of_nat : ℕ → F
  pub mul : F → F → F
  pub div : F → F → F
  pub sqrt : F → F
  pub below : F → F → Bool
  pub show : F → String

-- The functions of the package `strings`, and the words of a text once it is cleaned: for shingles (`ToLower`,
-- `NewReplacer`, `Fields`) and for counting (`ToLower`, `Map`, `Fields`).
pub record Texts : Type 0 where
  pub trim_space : String → String
  pub to_upper : String → String
  pub trim_prefix : String → String → String
  pub trim_left : String → String → String
  pub shingle_words : String → List String
  pub plain_words : String → List String

-- `tokenize3Grams`: three words in a row, each once
unfoldable pub shingles : List String → List String
shingles [] = []
shingles (a ∷ []) = []
shingles (a ∷ b ∷ []) = []
shingles (a ∷ b ∷ c ∷ rest) =
    str_append a (str_append " " (str_append b (str_append " " c))) ∷ shingles (b ∷ c ∷ rest)

unfoldable pub distinct : List String → List String
distinct [] = []
distinct (x ∷ xs) = let rest = distinct xs in if has x rest then rest else x ∷ rest

unfoldable pub tokenize_grams : Texts → String → List String
unfolding shingles distinct
tokenize_grams t text = distinct (shingles (t.shingle_words text))

unfoldable pub intersection : List String → List String → ℕ
intersection [] b = 0
intersection (x ∷ a) b = (if has x b then 1 else 0) + intersection a b

-- `stopWords`
abbrev stop_words : List String
stop_words =
    "the" ∷ "a" ∷ "an" ∷ "is" ∷ "are" ∷ "was" ∷ "were" ∷ "be" ∷ "been" ∷ "being" ∷ "have" ∷ "has"
    ∷ "had" ∷ "do" ∷ "does" ∷ "did" ∷ "will" ∷ "would" ∷ "could" ∷ "should" ∷ "to" ∷ "of" ∷ "in"
    ∷ "for" ∷ "on" ∷ "with" ∷ "at" ∷ "by" ∷ "from" ∷ "as" ∷ "into" ∷ "through" ∷ "during" ∷ "before"
    ∷ "after" ∷ "above" ∷ "below" ∷ "between" ∷ "and" ∷ "but" ∷ "or" ∷ "not" ∷ "if" ∷ "then"
    ∷ "else" ∷ "when" ∷ "where" ∷ "why" ∷ "how" ∷ "all" ∷ "each" ∷ "every" ∷ "both" ∷ "few" ∷ "more"
    ∷ "most" ∷ "other" ∷ "some" ∷ "such" ∷ "no" ∷ "only" ∷ "own" ∷ "same" ∷ "so" ∷ "than" ∷ "too"
    ∷ "very" ∷ "just" ∷ "now" ∷ []

module _ {F : Type 0} (fl : Floats F) (t : Texts) where
  -- `jaccardSimilarity`
  unfoldable pub jaccard_similarity : List String → List String → F
  unfolding intersection
  jaccard_similarity [] [] = fl.of_nat 1
  jaccard_similarity [] (y ∷ b) = fl.of_nat 0
  jaccard_similarity (x ∷ a) [] = fl.of_nat 0
  jaccard_similarity (x ∷ a) (y ∷ b) =
      let n = intersection (x ∷ a) (y ∷ b) in
      fl.div (fl.of_nat n) (fl.of_nat (length (x ∷ a) + length (y ∷ b) - n))

  -- `wordFreqVector`; the counts are whole numbers.
  unfoldable pub count_words : List String → List (String × ℕ) → List (String × ℕ)
  count_words [] v = v
  count_words (w ∷ ws) v = count_words ws (
      if has w stop_words || leb (byte_len w) 1
      then v
      else insert w (elim (lookup w v) [ none ↦ 1 | some n ↦ n + 1 ]) v)

  unfoldable pub word_freq_vector : String → List (String × ℕ)
  unfolding count_words
  word_freq_vector text = count_words (t.plain_words text) []

  abbrev count_in : String → List (String × ℕ) → ℕ
  count_in w v = elim (lookup w v) [ none ↦ 0 | some n ↦ n ]

  unfoldable pub dot_product : List (String × ℕ) → List (String × ℕ) → ℕ
  dot_product [] v = 0
  dot_product ((w, n) ∷ u) v = n * count_in w v + dot_product u v

  -- `cosineSimilarity`; a word of one vector alone adds nothing to the product.
  unfoldable pub cosine_similarity : String → String → F
  unfolding word_freq_vector dot_product
  cosine_similarity a b =
      let u = word_freq_vector a in
      let v = word_freq_vector b in
      let size_u = dot_product u u in
      let size_v = dot_product v v in
      if size_u == 0 || size_v == 0
      then fl.of_nat 0
      else fl.div (fl.of_nat (dot_product u v))
          (fl.mul (fl.sqrt (fl.of_nat size_u)) (fl.sqrt (fl.of_nat size_v)))
