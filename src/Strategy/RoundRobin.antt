-- ===== src/Strategy/RoundRobin.antt =====
-- The round-robin strategy (pkg/reef/server/strategy.go).
use reef.Prelude.{
  ◌≡◌, refl, inl, inr, true, false, List, [], ◌∷◌, none, some, arith, All, Bool-cases,
}
use reef.Prelude.Texts.{str_lt_neg_trans, str_lt_asym}
use mathlib.Core.List.{Perm}
use mathlib.Core.List.Perm
use reef.Client.{ClientInfo}
use reef.Strategy.{less, insert_sorted, sort_slice, round_robin}

less_neg_trans : (a b c : ClientInfo) → less b a ≡ false → less c b ≡ false → less c a ≡ false
unfolding less
less_neg_trans a b c h k = ground (arith, str_lt_neg_trans a.id b.id c.id)

less_asym : (a b : ClientInfo) → less a b ≡ true → less b a ≡ false
unfolding less
less_asym a b h = ground (arith, str_lt_asym a.id b.id)

-- Nothing in the list is below `a`.
abbrev pub Lowest : ClientInfo → List ClientInfo → Type 0
Lowest a cs = All (λ d. less d a ≡ false) cs

Lowest-trans :
    (a b : ClientInfo) (cs : List ClientInfo) → less b a ≡ false → Lowest b cs → Lowest a cs
Lowest-trans a b [] h l = tt
Lowest-trans a b (c ∷ cs) h l = (less_neg_trans a b c h l.0, Lowest-trans a b cs h l.1)

abbrev Sorted : List ClientInfo → Type 0
Sorted [] = Unit
Sorted (c ∷ cs) = Lowest c cs × Sorted cs

insert_sorted-Lowest :
    (a c : ClientInfo) (cs : List ClientInfo)
    → less c a ≡ false
    → Lowest a cs
    → Lowest a (insert_sorted c cs)
unfolding insert_sorted
insert_sorted-Lowest a c [] h l = (h, tt)
insert_sorted-Lowest a c (d ∷ ds) h l = elim (Bool-cases (less d c)) [
  | inl e ↦ rw e (l.0, insert_sorted-Lowest a c ds h l.1)
  | inr e ↦ rw e (h, l)
]

insert_sorted-Sorted :
    (c : ClientInfo) (cs : List ClientInfo) → Sorted cs → Sorted (insert_sorted c cs)
unfolding insert_sorted
insert_sorted-Sorted c [] s = (tt, tt)
insert_sorted-Sorted c (d ∷ ds) s = elim (Bool-cases (less d c)) [
  | inl e ↦ rw e (insert_sorted-Lowest d c ds (less_asym d c e) s.0, insert_sorted-Sorted c ds s.1)
  | inr e ↦ rw e ((e, Lowest-trans c d ds e s.0), s)
]

sort_slice-Sorted : (cs : List ClientInfo) → Sorted (sort_slice cs)
unfolding sort_slice
sort_slice-Sorted [] = tt
sort_slice-Sorted (c ∷ cs) = insert_sorted-Sorted c (sort_slice cs) (sort_slice-Sorted cs)

insert_sorted-perm : (c : ClientInfo) (cs : List ClientInfo) → Perm (insert_sorted c cs) (c ∷ cs)
unfolding insert_sorted
insert_sorted-perm c [] = Perm.refl _
insert_sorted-perm c (d ∷ ds) = elim (Bool-cases (less d c)) [
  | inl e ↦ rw e (Perm.trans (Perm.cons d (insert_sorted-perm c ds)) (Perm.swap c d ds))
  | inr e ↦ rw e (Perm.refl _)
]

sort_slice-perm : (cs : List ClientInfo) → Perm (sort_slice cs) cs
unfolding sort_slice
sort_slice-perm [] = Perm.refl _
sort_slice-perm (c ∷ cs) =
    Perm.trans (insert_sorted-perm c (sort_slice cs)) (Perm.cons c (sort_slice-perm cs))

-- The strategy chooses a client whenever there is a candidate: one of them, such that no other has
-- a lower load, or the same load and an id that comes before.
pub round_robin-Lowest :
    (c : ClientInfo) (cs : List ClientInfo)
    → (r : ClientInfo) × (rest : List ClientInfo) × (round_robin (c ∷ cs) ≡ some r)
      × Perm (r ∷ rest) (c ∷ cs)
      × Lowest r rest
unfolding round_robin
round_robin-Lowest c cs =
    first (sort_slice (c ∷ cs)) (sort_slice-Sorted (c ∷ cs)) (sort_slice-perm (c ∷ cs))
  where
    first :
        (ds : List ClientInfo)
        → Sorted ds
        → Perm ds (c ∷ cs)
        → (r : ClientInfo) × (rest : List ClientInfo) × (elim ds [ [] ↦ none | d ∷ _ ↦ some d ]
            ≡ some r)
          × Perm (r ∷ rest) (c ∷ cs)
          × Lowest r rest
    first [] s p = cc (Perm.nil-eq p)
    first (d ∷ ds) s p = (d, ds, refl, p, s.0)
