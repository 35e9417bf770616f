-- ===== src/Strategy/LeastLoad.antt =====
-- The least-load strategy (pkg/reef/server/strategy.go).
use reef.Prelude.{
  ◌≤◌, ◌<◌, ◌≡◌, refl, ap, ◌⊎◌, inl, inr, List, [], ◌∷◌, ◌++◌, some, arith, All, ltb, Bool-cases,
}
use reef.Client.{ClientInfo}
use reef.Strategy.{least_load_from, least_load}

-- `c` is the first of the least loaded.
abbrev pub IsFirstLeast : ClientInfo → List ClientInfo → Type 0
IsFirstLeast c cs =
    (before : List ClientInfo) × (after : List ClientInfo) × (cs ≡ before ++ c ∷ after)
    × All (λ d. c.current_load < d.current_load) before
    × All (λ d. c.current_load ≤ d.current_load) after

IsFirstLeast-cons :
    (r c : ClientInfo) (cs : List ClientInfo)
    → r.current_load < c.current_load
    → IsFirstLeast r cs
    → IsFirstLeast r (c ∷ cs)
IsFirstLeast-cons r c cs h (before, after, e, b, a) = (c ∷ before, after, ap (◌∷◌ c) e, (h, b), a)

-- The loop keeps its start, or ends at the first of the least loaded below it.
abbrev EndsAt : ClientInfo → List ClientInfo → ClientInfo → Type 0
EndsAt best cs r =
    ((r ≡ best) × All (λ d. best.current_load ≤ d.current_load) cs)
    ⊎ (IsFirstLeast r cs × (r.current_load < best.current_load))

EndsAt-lower :
    (best c r : ClientInfo) (cs : List ClientInfo)
    → c.current_load < best.current_load
    → EndsAt c cs r
    → EndsAt best (c ∷ cs) r
EndsAt-lower best c r cs h (inl (same, a)) = inr (rw same ([], cs, refl, tt, a), rw same h)
EndsAt-lower best c r cs h (inr (f, lt)) = inr (IsFirstLeast-cons r c cs lt f, omega arith)

EndsAt-keep :
    (best c r : ClientInfo) (cs : List ClientInfo)
    → best.current_load ≤ c.current_load
    → EndsAt best cs r
    → EndsAt best (c ∷ cs) r
EndsAt-keep best c r cs h (inl (same, a)) = inl (same, (h, a))
EndsAt-keep best c r cs h (inr (f, lt)) = inr (IsFirstLeast-cons r c cs (omega arith) f, lt)

least_load_from-EndsAt :
    (best : ClientInfo) (cs : List ClientInfo) → EndsAt best cs (least_load_from best cs)
unfolding least_load_from
least_load_from-EndsAt best [] = inl (refl, tt)
least_load_from-EndsAt best (c ∷ cs) = elim (Bool-cases (ltb c.current_load best.current_load)) [
  | inl e ↦
      rw (e, least_load_from)
        (EndsAt-lower best c _ cs (ground arith) (least_load_from-EndsAt c cs))
  | inr e ↦
      rw (e, least_load_from)
        (EndsAt-keep best c _ cs (ground arith) (least_load_from-EndsAt best cs))
]

-- The strategy chooses a client whenever there is a candidate, and it is the first of the
-- candidates with the lowest load: those before it carry more, those behind it no less.
pub least_load-IsFirstLeast :
    (c : ClientInfo) (cs : List ClientInfo)
    → (r : ClientInfo) × (least_load (c ∷ cs) ≡ some r) × IsFirstLeast r (c ∷ cs)
unfolding least_load
least_load-IsFirstLeast c cs = (least_load_from c cs, refl, from_end (least_load_from-EndsAt c cs))
  where
    from_end : {r : ClientInfo} → EndsAt c cs r → IsFirstLeast r (c ∷ cs)
    from_end (inl (same, a)) = rw same ([], cs, refl, tt, a)
    from_end (inr (f, lt)) = IsFirstLeast-cons _ c cs lt f
