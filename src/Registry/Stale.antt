-- ===== src/Registry/Stale.antt =====
-- The scan for silent clients (pkg/reef/server/registry.go).
use reef.Prelude.{
  ℕ, ◌≡◌, refl, inl, inr, Bool, false, List, [], ◌∷◌, Option, none, some, String, str_eq, eq_iff,
  arith, UniqueKeys, has, lookup, lookup-insert, if◌then◌else◌, Option-cases, ◌∙◌,
}
use reef.Client.{ClientState, ClientInfo}
use reef.Registry.{Registry, get, mark_stale, mark_all_stale, is_overdue, overdue_ids, scan_stale}
use reef.Registry.Laws.{on_some}

abbrev pub staled : ClientInfo → ClientInfo
staled c = record c { state = ClientState.stale }

get-mark_stale :
    (k j : String) (r : Registry)
    → get j (mark_stale k r).0 ≡ (if str_eq k j then on_some staled (get j r) else get j r)
unfolding get mark_stale
get-mark_stale k j r = elim (Option-cases (lookup k r.clients)) [
  | inl e ↦ rw (e, mark_stale) (ground (arith, eq_iff k j))
  | inr (c, e) ↦
      rw (e, mark_stale) (ground (arith, eq_iff k j, lookup-insert k j (staled c) r.clients))
]

get-mark_all_stale :
    (ids : List String) (j : String) (r : Registry)
    → get j (mark_all_stale ids r) ≡ (if has j ids then on_some staled (get j r) else get j r)
unfolding mark_all_stale
get-mark_all_stale [] j r = refl
get-mark_all_stale (k ∷ ids) j r =
    ground (arith, get-mark_stale k j r, get-mark_all_stale ids j (mark_stale k r).0)

abbrev pub overdue : ℕ → ℕ → Option ClientInfo → Bool
overdue now timeout none = false
overdue now timeout (some c) = is_overdue now timeout c

has-overdue_ids :
    (now timeout : ℕ) (j : String) (m : List (String × ClientInfo))
    → UniqueKeys m
    → has j (overdue_ids now timeout m) ≡ overdue now timeout (lookup j m)
unfolding overdue_ids lookup
has-overdue_ids now timeout j [] u = refl
has-overdue_ids now timeout j ((k, c) ∷ m) u =
    ground (arith, eq_iff k j, has-overdue_ids now timeout j m u.1)

settled :
    (now timeout : ℕ) (o : Option ClientInfo)
    → overdue now timeout (if overdue now timeout o then on_some staled o else o) ≡ false
unfolding is_overdue
settled now timeout o = ground arith

-- `ScanStale` returns exactly the ids of the connected clients whose heartbeat is older than the
-- timeout, marks exactly these stale and leaves every other client as it was; afterwards no
-- connected client is overdue.
pub scan_stale_exact :
    (now timeout : ℕ) (j : String) (r : Registry)
    → UniqueKeys r.clients
    → let (r', ids) = scan_stale now timeout r in
      (has j ids ≡ overdue now timeout (get j r))
      × (get j r' ≡ (if overdue now timeout (get j r) then on_some staled (get j r) else get j r))
      × (overdue now timeout (get j r') ≡ false)
unfolding scan_stale get
scan_stale_exact now timeout j r u =
    let found = has-overdue_ids now timeout j r.clients u in
    let marked = get-mark_all_stale (overdue_ids now timeout r.clients) j r ∙ marked_if found in
    (found, marked, rw marked (settled now timeout (lookup j r.clients)))
  where
    marked_if :
        {a b : Bool}
        → a ≡ b
        → (if a then on_some staled (get j r) else get j r)
          ≡ (if b then on_some staled (get j r) else get j r)
    marked_if e = rw e
