-- ===== src/Evolution/Broadcaster.antt =====
-- pkg/reef/evolution/server/broadcaster.go: how an approved gene gets to the clients of its role. The clients
-- of a role are an input, and so is whether a send gets through in time; the sends of one broadcast
-- run side by side and touch different clients, here in the order of the list. `started` is how many sends are
-- started before the context is cancelled. A gene and its message are always encoded.
pub mod Delivery
pub mod Reconnect
pub mod Pending
use reef.Prelude.{
  ℕ, zero, suc, ◌+◌, Bool, true, false, not, List, [], ◌∷◌, ◌++◌, Option, none, some, String,
  str_eq, lookup, insert, delete, ltb, if◌then◌else◌, length, has,
}
use reef.Prelude.Int.{or_default, ℤ, pos, negsuc}
use reef.Raft.Fsm.{Gene}

-- `ClientInfo` of this package
pub record RoleClient : Type 0 where
  pub id : String
  pub is_online : Bool

pub record Broadcaster : Type 0 where
  pub resync_on_reconnect : Bool
  pub max_pending : ℕ
  pub pending_sync : List (String × List String)

-- `MaxPendingPerClient` with its default
unfoldable pub new_broadcaster : Bool → ℤ → Broadcaster
new_broadcaster resync max_pending = record {
  resync_on_reconnect = resync;
  max_pending = or_default 50 max_pending;
  pending_sync = [];
}

abbrev pub tail_of : List String → List String
tail_of [] = []
tail_of (x ∷ xs) = xs

-- `b.pendingSync[clientID]`: a missing key is the empty list.
unfoldable pub get_pending_sync_ids : String → Broadcaster → List String
get_pending_sync_ids client b = elim (lookup client b.pending_sync) [ none ↦ [] | some ids ↦ ids ]

unfoldable pub pending_sync_count : String → Broadcaster → ℕ
unfolding get_pending_sync_ids
pending_sync_count client b = length (get_pending_sync_ids client b)

-- The entries with one more: no duplicate, and the oldest is dropped above the limit.
unfoldable pub with_entry : ℕ → String → List String → List String
with_entry limit gene entries =
    let longer = entries ++ gene ∷ [] in
    if has gene entries
    then entries
    else if ltb limit (length longer)
    then tail_of longer
    else longer

unfoldable pub record_offline : String → String → Broadcaster → Broadcaster
unfolding get_pending_sync_ids with_entry
record_offline client gene b =
    let entries = get_pending_sync_ids client b in
    if has gene entries then b else record b {
      pending_sync = insert client (with_entry b.max_pending gene entries) b.pending_sync;
    }

-- The clients but the source, online or not
unfoldable pub targets : Bool → String → List RoleClient → List String
targets online source [] = []
targets online source (c ∷ cs) =
    let rest = targets online source cs in
    if str_eq c.id source
    then rest
    else if c.is_online
    then (if online then c.id ∷ rest else rest)
    else if online
    then rest
    else c.id ∷ rest

unfoldable pub record_all : List String → String → Broadcaster → Broadcaster
unfolding record_offline
record_all [] gene b = b
record_all (c ∷ cs) gene b = record_all cs gene (record_offline c gene b)

-- The sends that are started: one that fails or times out is recorded, one that gets through is listed.
unfoldable pub send_all :
    (String → Bool) → String → ℕ → List String → Broadcaster → Broadcaster × List String
unfolding record_offline
send_all reaches gene zero cs b = (b, [])
send_all reaches gene (suc started) [] b = (b, [])
send_all reaches gene (suc started) (c ∷ cs) b =
    let (b', sent) =
      send_all reaches gene started cs (if reaches c then b else record_offline c gene b) in
    (b', (if reaches c then c ∷ sent else sent))

-- `Broadcast`: the broadcaster, the clients that the gene got to, and whether there is no error.
unfoldable pub broadcast :
    List RoleClient
    → (String → Bool)
    → ℕ
    → Gene
    → String
    → Broadcaster
    → Broadcaster × List String × Bool
unfolding targets record_all send_all
broadcast clients reaches started g source b =
    let b' = record_all (targets false source clients) g.id b in
    let (b'', sent) = send_all reaches g.id started (targets true source clients) b' in
    if str_eq g.role "" then (b, [], false) else (b'', sent, true)

-- The loop of `OnClientReconnect`, with the genes of the store: `none` is an error or no gene.
unfoldable pub resync :
    (String → Option Gene)
    → (String → Bool)
    → String
    → List String
    → Broadcaster
    → Broadcaster × List String
resync get_gene reaches client [] b = (b, [])
resync get_gene reaches client (id ∷ ids) b =
    let (b', sent) = resync get_gene reaches client ids b in
    elim (get_gene id) [
      | none ↦ (b', sent)
      | some g ↦
          if not (str_eq g.status "approved")
          then (b', sent)
          else if reaches g.id
          then (b', g.id ∷ sent)
          else (
            record b {
              pending_sync =
                  insert client (get_pending_sync_ids client b ++ id ∷ []) b.pending_sync;
            },
            [],
          )
    ]

-- `OnClientReconnect`: the genes that are sent, in order.
unfoldable pub on_client_reconnect :
    (String → Option Gene) → (String → Bool) → String → Broadcaster → Broadcaster × List String
unfolding resync get_pending_sync_ids
on_client_reconnect get_gene reaches client b =
    if b.resync_on_reconnect
    then resync get_gene reaches client (get_pending_sync_ids client b)
        (record b { pending_sync = delete client b.pending_sync })
    else (b, [])
