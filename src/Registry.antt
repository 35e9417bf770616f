-- ===== src/Registry.antt =====
-- pkg/reef/server/registry.go: the connected clients by their ids. The map is an association list
-- with one entry for each id; the order in which `range` visits it is the order of the list, and
-- the theorems hold for every order. Each locked section is one function. `on_stale` says whether a
-- callback is installed, and `stale_calls` records its calls, the latest first.
pub mod Laws
pub mod Stale
pub mod Loads
use reef.Prelude.{
  ℕ, ◌+◌, ◌-◌, Bool, true, false, not, ◌||◌, List, [], ◌∷◌, map, Option, none, some, String, str_eq,
  keep_if, lookup, insert, delete, ltb, if◌then◌else◌,
}
use reef.Client.{ClientState, ClientInfo, is_connected, is_stale}

pub record Registry : Type 0 where
  pub clients : List (String × ClientInfo)
  pub on_stale : Bool
  pub stale_calls : List String

unfoldable pub new_registry : Bool → Registry
new_registry on_stale = record { clients = []; on_stale = on_stale; stale_calls = [] }

unfoldable pub register : ClientInfo → Registry → Registry
register info r = record r { clients = insert info.id info r.clients }

unfoldable pub unregister : String → Registry → Registry
unregister client_id r = record r { clients = delete client_id r.clients }

unfoldable pub get : String → Registry → Option ClientInfo
get client_id r = lookup client_id r.clients

-- A method that changes the fields of the client it finds, and reports whether it found one.
unfoldable pub change : String → (ClientInfo → ClientInfo) → Registry → Registry × Bool
change client_id f r = elim (lookup client_id r.clients) [
  | none ↦ (r, false)
  | some c ↦ (record r { clients = insert client_id (f c) r.clients }, true)
]

unfoldable pub update_heartbeat : ℕ → String → Registry → Registry × Bool
unfolding change
update_heartbeat now client_id =
    change client_id (λ c. record c { last_heartbeat = now; state = ClientState.connected })

unfoldable pub mark_stale : String → Registry → Registry × Bool
unfolding is_stale
mark_stale client_id r = elim (lookup client_id r.clients) [
  | none ↦ (r, false)
  | some c ↦ if is_stale c.state then (r, false) else (
    record r {
      clients = insert client_id (record c { state = ClientState.stale }) r.clients;
      stale_calls = if r.on_stale then client_id ∷ r.stale_calls else r.stale_calls;
    },
    true,
  )
]

unfoldable pub mark_disconnected : String → Registry → Registry × Bool
unfolding change
mark_disconnected client_id = change client_id (λ c. record c { state = ClientState.disconnected })

abbrev pub values : List (String × ClientInfo) → List ClientInfo
values [] = []
values ((_, c) ∷ m) = c ∷ values m

unfoldable pub list : Registry → List ClientInfo
list r = values r.clients

unfoldable pub list_by_role : String → Registry → List ClientInfo
list_by_role role r = keep_if (λ c. str_eq c.role role) (values r.clients)

unfoldable pub find_by_role : String → Registry → List ClientInfo
unfolding list_by_role
find_by_role role r = list_by_role role r

-- The test of the loop in `ScanStale`.
unfoldable pub is_overdue : ℕ → ℕ → ClientInfo → Bool
unfolding is_connected
is_overdue now timeout c =
    if not (is_connected c.state) then false else ltb timeout (now - c.last_heartbeat)

unfoldable pub overdue_ids : ℕ → ℕ → List (String × ClientInfo) → List String
unfolding is_overdue
overdue_ids now timeout [] = []
overdue_ids now timeout ((id, c) ∷ m) =
    let rest = overdue_ids now timeout m in if is_overdue now timeout c then id ∷ rest else rest

unfoldable pub mark_all_stale : List String → Registry → Registry
unfolding mark_stale
mark_all_stale [] r = r
mark_all_stale (id ∷ ids) r = mark_all_stale ids (mark_stale id r).0

unfoldable pub scan_stale : ℕ → ℕ → Registry → Registry × List String
unfolding overdue_ids mark_all_stale
scan_stale now timeout r =
    let stale_ids = overdue_ids now timeout r.clients in (mark_all_stale stale_ids r, stale_ids)

unfoldable pub increment_load : String → Registry → Registry × Bool
unfolding change
increment_load client_id = change client_id (λ c. record c { current_load = c.current_load + 1 })

unfoldable pub decrement_load : String → Registry → Registry × Bool
unfolding change
decrement_load client_id =
    change client_id
      (λ c. if ltb 0 c.current_load then record c { current_load = c.current_load - 1 } else c)
