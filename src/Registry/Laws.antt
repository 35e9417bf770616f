-- ===== src/Registry/Laws.antt =====
-- The registry as a map from ids to clients (pkg/reef/server/registry.go).
use reef.Prelude.{
  ◌+◌, ◌-◌, ◌≡◌, inl, inr, Option, none, some, String, str_eq, eq_iff, arith, lookup, insert,
  lookup-insert, lookup-delete, if◌then◌else◌, Option-cases, ltb,
}
use reef.Client.{ClientInfo}
use reef.Registry.{Registry, register, unregister, get, change, increment_load, decrement_load}

abbrev pub on_some : (ClientInfo → ClientInfo) → Option ClientInfo → Option ClientInfo
on_some f none = none
on_some f (some c) = some (f c)

pub get-change :
    (k j : String) (f : ClientInfo → ClientInfo) (r : Registry)
    → get j (change k f r).0 ≡ (if str_eq k j then on_some f (get j r) else get j r)
unfolding get change
get-change k j f r = elim (Option-cases (lookup k r.clients)) [
  | inl e ↦ rw (e, change) (ground (arith, eq_iff k j))
  | inr (c, e) ↦ rw (e, change) (ground (arith, eq_iff k j, lookup-insert k j (f c) r.clients))
]

-- The map laws: a registered client is found under its id, an unregistered one is not, and the
-- other ids are not touched.
pub get-register-unregister :
    (c : ClientInfo) (k j : String) (r : Registry)
    → (get j (register c r) ≡ (if str_eq c.id j then some c else get j r))
      × (get j (unregister k r) ≡ (if str_eq k j then none else get j r))
      × (get j (unregister c.id (register c r)) ≡ get j (unregister c.id r))
unfolding get register unregister
get-register-unregister c k j r = ground (
  arith,
  lookup-insert c.id j c r.clients,
  lookup-delete k j r.clients,
  lookup-delete c.id j (insert c.id c r.clients),
  lookup-delete c.id j r.clients,
)

restores :
    (k j : String) (o : Option ClientInfo)
    → (if str_eq k j
        then on_some
            (λ c.
              if ltb 0 c.current_load then record c { current_load = c.current_load - 1 } else c)
            (if str_eq k j
              then on_some (λ c. record c { current_load = c.current_load + 1 }) o
              else o)
        else if str_eq k j
        then on_some (λ c. record c { current_load = c.current_load + 1 }) o
        else o)
      ≡ o
restores k j o = ground arith

-- Releasing a slot just taken gives back the load that each client had.
pub decrement-increment :
    (k j : String) (r : Registry) → get j (decrement_load k (increment_load k r).0).0 ≡ get j r
unfolding increment_load decrement_load
decrement-increment k j r =
    let up : ClientInfo → ClientInfo = λ c. record c { current_load = c.current_load + 1 } in
    let down : ClientInfo → ClientInfo =
      λ c. if ltb 0 c.current_load then record c { current_load = c.current_load - 1 } else c in
    rw (get-change k j down (change k up r).0, get-change k j up r) (restores k j (get j r))
