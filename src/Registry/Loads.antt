-- ===== src/Registry/Loads.antt =====
-- No client carries more than its capacity (pkg/reef/server/registry.go).
use reef.Prelude.{
  ◌≤◌, ◌<◌, ◌≡◌, inl, inr, List, [], ◌∷◌, some, String, eq_iff, arith, In, All, UniqueKeys,
  insert-UniqueKeys, lookup, insert, Option-cases, ap,
}
use reef.Client.{ClientInfo}
use reef.Registry.{Registry, values, list, change, increment_load, decrement_load}

-- An entry stands under the client's id, and the client's load is within its capacity.
abbrev pub Fits : String × ClientInfo → Type 0
Fits (k, c) = (k ≡ c.id) × (c.current_load ≤ c.capacity)

pub record RegistryFits (r : Registry) : Type 0 where
  pub unique : UniqueKeys r.clients
  pub fits : All Fits r.clients

insert-Fits :
    (k : String) (c : ClientInfo) (m : List (String × ClientInfo))
    → Fits (k, c)
    → All Fits m
    → All Fits (insert k c m)
unfolding insert
insert-Fits k c [] f a = (f, tt)
insert-Fits k c ((j, d) ∷ m) f a = ground (arith, insert-Fits k c m f a.1)

lookup-Fits :
    (k : String) (c : ClientInfo) (m : List (String × ClientInfo))
    → lookup k m ≡ some c
    → All Fits m
    → Fits (k, c)
unfolding lookup
lookup-Fits k c [] e a = cc
lookup-Fits k c ((j, d) ∷ m) e a = ground (arith, eq_iff j k, lookup-Fits k c m)

-- A change of one client keeps the registry if it keeps that client within its capacity.
change-Fits :
    (k : String) (f : ClientInfo → ClientInfo) (r : Registry)
    → ((c : ClientInfo) → lookup k r.clients ≡ some c → Fits (k, c) → Fits (k, f c))
    → RegistryFits r
    → RegistryFits (change k f r).0
unfolding change
change-Fits k f r keep v = elim (Option-cases (lookup k r.clients)) [
  | inl e ↦ rw (e, change) v
  | inr (c, e) ↦
      rw (e, change)
        (record {
          unique = insert-UniqueKeys k (f c) r.clients v.unique;
          fits =
              insert-Fits k (f c) r.clients (keep c e (lookup-Fits k c r.clients e v.fits)) v.fits;
        })
]

pub decrement_load-Fits :
    (k : String) (r : Registry) → RegistryFits r → RegistryFits (decrement_load k r).0
unfolding decrement_load
decrement_load-Fits k r v = change-Fits k _ r (λ c e f. ground arith) v

-- A listed client is the one that its id is looked up for.
values-lookup :
    (c : ClientInfo) (m : List (String × ClientInfo))
    → UniqueKeys m
    → All Fits m
    → In c (values m)
    → lookup c.id m ≡ some c
unfolding lookup
values-lookup c [] u a i = absurd i
values-lookup c ((k, d) ∷ m) u a (inl e) = ground (arith, eq_iff k c.id, ap (λ x. x.id) e)
values-lookup c ((k, d) ∷ m) u a (inr i) =
    ground (arith, eq_iff k c.id, values-lookup c m u.1 a.1 i)

pub list-lookup :
    (c : ClientInfo) (r : Registry)
    → RegistryFits r
    → In c (list r)
    → lookup c.id r.clients ≡ some c
unfolding list
list-lookup c r v i = values-lookup c r.clients v.unique v.fits i

-- Taking a slot of an available client keeps every client within its capacity.
pub increment_load-Fits :
    (c : ClientInfo) (r : Registry)
    → RegistryFits r
    → In c (list r)
    → c.current_load < c.capacity
    → RegistryFits (increment_load c.id r).0
unfolding increment_load
increment_load-Fits c r v i h =
    let found = list-lookup c r v i in change-Fits c.id _ r (λ d e f. ground (arith, found)) v
