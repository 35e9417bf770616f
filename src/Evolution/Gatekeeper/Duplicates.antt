-- ===== src/Evolution/Gatekeeper/Duplicates.antt =====
-- pkg/reef/evolution/server/gate.go: a gene that repeats the control signal of an approved one.
use reef.Prelude.{
  ℕ, suc, ◌+◌, ◌-◌, ◌<◌, ◌≡◌, refl, ◌∙◌, ap, inl, inr, Bool, true, false, not, ◌||◌, List, [], ◌∷◌,
  some, String, str_eq, arith, In, has, length, leb, if◌then◌else◌, Option-cases, eq_refl,
}
use reef.Raft.Fsm.{Gene}
use reef.Evolution.Similarity.{Floats, Texts, intersection, jaccard_similarity, tokenize_grams}
use reef.Evolution.Gatekeeper.{
  Gatekeeper, Surroundings, Scan, duplicate, scan_jaccard, fall_back, if_on, review_layer1,
  review_layer2, review,
}

-- Every text of the first list stands in the second.
Within : List String → List String → Type 0
Within a b = (x : String) → In x a → has x b ≡ true

In-has : (x : String) (b : List String) → In x b → has x b ≡ true
In-has x [] i = absurd i
In-has x (y ∷ b) (inl e) = rw (e, eq_refl x) refl
In-has x (y ∷ b) (inr i) = ground (arith, In-has x b i)

intersection-full :
    (a b : List String) → ((x : String) → In x a → has x b ≡ true) → intersection a b ≡ length a
unfolding intersection
intersection-full [] b h = refl
intersection-full (x ∷ a) b h =
    let later = intersection-full a b (λ y i. h y (inr i)) in
    rw (h x (inl refl)) (omega (arith, later))

module _ {F : Type 0} (fl : Floats F) (t : Texts) where
  -- A set of shingles is wholly similar to itself.
  jaccard_self :
      (x : String) (a : List String)
      → jaccard_similarity fl t (x ∷ a) (x ∷ a)
        ≡ fl.div (fl.of_nat (suc (length a))) (fl.of_nat (suc (length a)))
  unfolding jaccard_similarity
  jaccard_self x a =
      let full = intersection-full (x ∷ a) (x ∷ a) (λ y i. In-has y (x ∷ a) i) in
      let size : suc (length a) + suc (length a) - suc (length a) ≡ suc (length a) = omega arith in
      rw (full, jaccard_similarity)
        (ap (λ n. fl.div (fl.of_nat (suc (length a))) (fl.of_nat n)) size)

  module _ (threshold : F) (g : Gene)
      (sure : (n : ℕ) → 0 < n → fl.below (fl.div (fl.of_nat n) (fl.of_nat n)) threshold ≡ false)
      (some_text : str_eq g.control_signal "" ≡ false) (x : String) (a : List String)
      (grams_are : tokenize_grams t g.control_signal ≡ x ∷ a) where
    Finds : Scan fl t → Type 0
    Finds r = (id : String) × (s : F) × (r ≡ duplicate id s)

    scan-Finds :
        (genes : List Gene) (m : F) (e : Gene)
        → In e genes
        → e.control_signal ≡ g.control_signal
        → Finds (scan_jaccard fl t threshold (x ∷ a) m genes)
    unfolding scan_jaccard Finds
    scan-Finds [] m e i c = absurd i
    scan-Finds (d ∷ genes) m e (inl p) c =
        let same : d.control_signal ≡ g.control_signal = ap (λ d. d.control_signal) p ∙ c in
        let here = sure (suc (length a)) (omega arith) in
        let filled : leb (length (x ∷ a)) 0 ≡ false = ground arith in
        rw (same, some_text, grams_are, filled, jaccard_self x a, here) (d.id, _, refl)
    scan-Finds (d ∷ genes) m e (inr i) c =
        pick (str_eq d.control_signal "" || leb (length (tokenize_grams t d.control_signal)) 0)
          (not (fl.below _ threshold)) d.id _ (scan-Finds genes m e i c) (scan-Finds genes _ e i c)
      where
        pick :
            (skip dup : Bool) (id : String) (s : F) {r r' : Scan fl t}
            → Finds r
            → Finds r'
            → Finds (if skip then r else if dup then duplicate id s else r')
        pick true dup id s h k = h
        pick false true id s h k = (_, _, refl)
        pick false false id s h k = k

module _ {F : Type 0} (fl : Floats F) (t : Texts) (k : Gatekeeper F) (w : Surroundings) where
  module _ (g e : Gene) (genes : List Gene) (listed : w.approved_genes g.role 50 ≡ some genes)
      (i : In e genes) (same : e.control_signal ≡ g.control_signal)
      (text : str_eq g.control_signal "" ≡ false)
      (sure : (n : ℕ)
        → 0 < n
        → fl.below (fl.div (fl.of_nat n) (fl.of_nat n)) k.dedup_threshold ≡ false) where
    layer2_refuses :
        (x : String) (a : List String)
        → tokenize_grams t g.control_signal ≡ x ∷ a
        → (r : String) × (review_layer2 fl t k w g ≡ some r)
    unfolding review_layer2 Finds fall_back
    layer2_refuses x a grams =
        let (id, s, dup) =
          scan-Finds fl t k.dedup_threshold g sure text x a grams genes (fl.of_nat 0) e i same in
        let filled : leb (length (x ∷ a)) 0 ≡ false = ground arith in
        rw (listed, grams, filled, many genes i, dup, review_layer2) (_, refl)
      where
        many : (genes : List Gene) → In e genes → leb (length genes) 0 ≡ false
        many [] i = absurd i
        many (d ∷ ds) i = ground arith

  List-cases :
      (xs : List String) → 0 < length xs → (y : String) × (ys : List String) × (xs ≡ y ∷ ys)
  List-cases [] p = absurd (omega arith)
  List-cases (y ∷ ys) p = (y, ys, refl)

  -- While the second layer is on, a gene is not passed if an approved gene that the store lists for its role has
  -- the same control signal, of three words at least, and a whole similarity is not below the threshold.
  pub repeated_is_refused :
      (g e : Gene) (genes : List Gene)
      → k.enable_layer2 ≡ true
      → w.approved_genes g.role 50 ≡ some genes
      → In e genes
      → e.control_signal ≡ g.control_signal
      → str_eq g.control_signal "" ≡ false
      → 0 < length (tokenize_grams t g.control_signal)
      → ((n : ℕ) → 0 < n → fl.below (fl.div (fl.of_nat n) (fl.of_nat n)) k.dedup_threshold ≡ false)
      → (review fl t k w g).passed ≡ false
  unfolding review
  repeated_is_refused g e genes on listed i c text long sure =
      let (x, a, grams) = List-cases _ long in
      let (r, refused) = layer2_refuses g e genes listed i c text sure x a grams in
      elim (Option-cases (if_on fl t k w k.enable_layer1 (review_layer1 fl t k w g))) [
        | inl n ↦ rw (n, on, refused, review) refl
        | inr (q, f) ↦ rw (f, review) refl
      ]
