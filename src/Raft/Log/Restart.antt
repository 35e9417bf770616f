-- ===== src/Raft/Log/Restart.antt =====
-- pkg/reef/raft/types.go (`BoltStore`) and node.go: what the log on disk holds, and what a restart makes of it.
use reef.Prelude.{
  ℕ, ◌+◌, ◌-◌, ◌≤◌, ◌<◌, ◌≡◌, ◌∙◌, refl, sym, ap, inl, inr, Bool, true, false, not, ◌&&◌, ◌||◌,
  List, [], ◌∷◌, ◌++◌, append-nil, ltb, leb, ◌==◌, keep_if, Bool-cases, arith, In,
}
use reef.Raft.Fsm.{Entry}
use reef.Raft.Log.{LogBucket, put_in_order, save_entries, seek, up_to, load_entries, delete_where}

-- Indices that rise, from above `lo`
abbrev pub IsAscending : ℕ → List Entry → Type 0
IsAscending lo [] = Unit
IsAscending lo (e ∷ es) = (lo < e.index) × IsAscending e.index es

IsAscending-lt :
    (lo : ℕ) (xs : List Entry) (e : Entry) (es : List Entry)
    → IsAscending lo (xs ++ (e ∷ es))
    → lo < e.index
IsAscending-lt lo [] e es h = h.0
IsAscending-lt lo (x ∷ xs) e es h = omega (arith, h.0, IsAscending-lt x.index xs e es h.1)

put_last :
    (lo : ℕ) (xs : List Entry) (e : Entry) (es : List Entry)
    → IsAscending lo (xs ++ (e ∷ es))
    → put_in_order e xs ≡ xs ++ (e ∷ [])
unfolding put_in_order
put_last lo [] e es h = refl
put_last lo (x ∷ xs) e es h =
    let above = IsAscending-lt x.index xs e es h.1 in
    let later = put_last x.index xs e es h.1 in ground (arith, above, later)

-- The index stands between the bounds, which belong to the range.
abbrev pub in_range : ℕ → ℕ → Entry → Bool
in_range lo hi e = leb lo e.index && leb e.index hi

none_above :
    (lo hi n : ℕ) (es : List Entry) → IsAscending n es → hi ≤ n → keep_if (in_range lo hi) es ≡ []
none_above lo hi n [] h k = refl
none_above lo hi n (e ∷ es) h k =
    let rest = none_above lo hi e.index es h.1 (omega (arith, h.0, k)) in
    ground (arith, h.0, k, rest)

up_to_keeps :
    (lo hi n : ℕ) (es : List Entry)
    → IsAscending n es
    → lo ≤ n + 1
    → up_to hi es ≡ keep_if (in_range lo hi) es
unfolding up_to
up_to_keeps lo hi n [] h k = refl
up_to_keeps lo hi n (e ∷ es) h k =
    let rest = up_to_keeps lo hi e.index es h.1 (omega (arith, h.0, k)) in
    elim (Bool-cases (ltb hi e.index)) [
      | inl f ↦
          let dropped = none_above lo hi e.index es h.1 (ground (arith, f)) in
          ground (arith, h.0, k, f, dropped)
      | inr f ↦ ground (arith, h.0, k, f, rest)
    ]

load_keeps :
    (lo hi n : ℕ) (es : List Entry)
    → IsAscending n es
    → up_to hi (seek lo es) ≡ keep_if (in_range lo hi) es
unfolding seek up_to
load_keeps lo hi n [] h = refl
load_keeps lo hi n (e ∷ es) h = elim (Bool-cases (ltb e.index lo)) [
  | inl f ↦ let rest = load_keeps lo hi e.index es h.1 in ground (arith, f, rest)
  | inr f ↦
      let whole =
        up_to_keeps lo hi (e.index - 1) (e ∷ es) (omega (arith, h.0), h.1)
          (ground (arith, f, h.0)) in
      rw (seek, f) whole
]

regroup : (xs : List Entry) (e : Entry) (es : List Entry) → (xs ++ (e ∷ [])) ++ es ≡ xs ++ (e ∷ es)
regroup [] e es = refl
regroup (x ∷ xs) e es = ap (λ r. x ∷ r) (regroup xs e es)

-- The loop over `es` deletes the index.
abbrev is_deleted : (ℕ → Bool) → ℕ → List Entry → Bool
is_deleted test i [] = false
is_deleted test i (e ∷ es) = (test e.index && (e.index == i)) || is_deleted test i es

is_deleted-test :
    (test : ℕ → Bool) (i : ℕ) (es : List Entry) → test i ≡ false → is_deleted test i es ≡ false
is_deleted-test test i [] h = refl
is_deleted-test test i (e ∷ es) h =
    let later = is_deleted-test test i es h in
    elim (Bool-cases (e.index == i)) [
      | inl s ↦ let same = ap test (the_same e.index i s) in ground (arith, s, same, h, later)
      | inr d ↦ ground (arith, d, later)
    ]
  where
    the_same : (a b : ℕ) → (a == b) ≡ true → a ≡ b
    the_same a b h = ground arith

is_deleted-In :
    (test : ℕ → Bool) (e : Entry) (es : List Entry)
    → In e es
    → is_deleted test e.index es ≡ test e.index
is_deleted-In test e [] i = absurd i
is_deleted-In test e (x ∷ es) (inl s) =
    ground
      (arith, s, ap (λ e. e.index) s, ap (λ e. test e.index) s, is_deleted-test test e.index es)
is_deleted-In test e (x ∷ es) (inr i) =
    let later = is_deleted-In test e es i in
    elim (Bool-cases (test e.index)) [
      | inl t ↦ ground (arith, t, later)
      | inr f ↦ is_deleted-test test e.index (x ∷ es) f ∙ sym f
    ]

module _ {A : Type 0} where
  keep_all : (xs : List A) → keep_if (λ x. true) xs ≡ xs
  keep_all [] = refl
  keep_all (x ∷ xs) = ap (λ r. x ∷ r) (keep_all xs)

  keep_if_twice :
      (p q r : A → Bool) (xs : List A)
      → ((x : A) → r x ≡ (q x && p x))
      → keep_if p (keep_if q xs) ≡ keep_if r xs
  keep_if_twice p q r [] h = refl
  keep_if_twice p q r (x ∷ xs) h =
      let later = keep_if_twice p q r xs h in ground (arith, h x, later)

  keep_if_same :
      (p q : A → Bool) (xs : List A) → ((x : A) → In x xs → p x ≡ q x) → keep_if p xs ≡ keep_if q xs
  keep_if_same p q [] h = refl
  keep_if_same p q (x ∷ xs) h =
      let later = keep_if_same p q xs (λ y i. h y (inr i)) in ground (arith, h x (inl refl), later)

module _ {B : Type 0} (bucket : LogBucket B) where
  -- Entries that rise above those of the log are its new end.
  pub save_entries_append :
      (xs es : List Entry) (b : B)
      → bucket.walk b ≡ xs
      → IsAscending 0 (xs ++ es)
      → bucket.walk (save_entries bucket es b) ≡ xs ++ es
  unfolding save_entries
  save_entries_append xs [] b w h = w ∙ sym (append-nil xs)
  save_entries_append xs (e ∷ es) b w h =
      let grown = bucket.walk_put e b ∙ ap (put_in_order e) w ∙ put_last 0 xs e es h in
      save_entries_append (xs ++ (e ∷ [])) es (bucket.put e b) grown (rw (regroup xs e es) h)
      ∙ regroup xs e es

  -- `LoadEntries` gives the entries of the log with an index in the range, in order.
  pub load_entries_lem :
      (lo hi : ℕ) (b : B)
      → IsAscending 0 (bucket.walk b)
      → load_entries bucket lo hi b ≡ keep_if (in_range lo hi) (bucket.walk b)
  unfolding load_entries
  load_entries_lem lo hi b h = load_keeps lo hi 0 (bucket.walk b) h

  delete_where_keeps :
      (test : ℕ → Bool) (es : List Entry) (b : B)
      → bucket.walk (delete_where bucket test es b)
        ≡ keep_if (λ e. not (is_deleted test e.index es)) (bucket.walk b)
  unfolding delete_where
  delete_where_keeps test [] b = sym (keep_all (bucket.walk b))
  delete_where_keeps test (e ∷ es) b = elim (Bool-cases (test e.index)) [
    | inl t ↦
        rw (delete_where, t)
          (delete_where_keeps test es (bucket.remove e.index b)
            ∙ ap (keep_if _) (bucket.walk_remove e.index b)
            ∙ keep_if_twice _ _ _ (bucket.walk b) (λ x. ground (arith, t)))
    | inr f ↦
        rw (delete_where, f)
          (delete_where_keeps test es b
            ∙ keep_if_same _ _ (bucket.walk b) (λ x i. ground (arith, f)))
  ]

  -- A loop over the whole log leaves the entries whose index does not pass the test.
  pub delete_where_walk :
      (test : ℕ → Bool) (b : B)
      → bucket.walk (delete_where bucket test (bucket.walk b) b)
        ≡ keep_if (λ e. not (test e.index)) (bucket.walk b)
  delete_where_walk test b =
      delete_where_keeps test (bucket.walk b) b
      ∙ keep_if_same _ _ (bucket.walk b) (λ e i. ap not (is_deleted-In test e (bucket.walk b) i))
