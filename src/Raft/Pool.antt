-- ===== src/Raft/Pool.antt =====
-- pkg/reef/raft/pool.go (`ClientConnPool`): a client's connections to the servers and which of them leads. A
-- connection is open or not; durations are nanoseconds.
pub mod Leading
use reef.Prelude.{
  ℕ, zero, suc, ◌+◌, ◌*◌, ◌%◌, ◌^◌, Bool, true, false, not, ◌&&◌, ◌||◌, List, [], ◌∷◌, map, Option,
  none, some, String, str_eq, ltb, leb, ◌==◌, if◌then◌else◌, has,
}

pub record ServerConn : Type 0 where
  pub addr : String
  pub connected : Bool
  pub is_leader : Bool

pub record PoolConfig : Type 0 where
  pub server_addrs : List String
  pub reconnect_backoff : ℕ
  pub max_reconnect : ℕ
  pub ping_interval : ℕ

-- `leaderIndex`, where -1 is `none`
pub record ClientConnPool : Type 0 where
  pub servers : List ServerConn
  pub leader_index : Option ℕ

-- `DefaultPoolConfig`
abbrev pub default_pool_config : PoolConfig
default_pool_config = record {
  server_addrs = [];
  reconnect_backoff = 2_000_000_000;
  max_reconnect = 30_000_000_000;
  ping_interval = 10_000_000_000;
}

-- `PoolConfig.Validate`: true is no error.
unfoldable pub validate : PoolConfig → Bool
validate c =
    elim c.server_addrs [ [] ↦ false | x ∷ xs ↦ true ]
    && ltb 0 c.reconnect_backoff
    && ltb 0 c.max_reconnect
    && ltb 0 c.ping_interval
    && leb c.reconnect_backoff c.max_reconnect

-- The loop that drops the addresses which came before
unfoldable pub dedupe : List String → List String → List String
dedupe seen [] = []
dedupe seen (a ∷ rest) =
    let skipped = dedupe seen rest in
    let kept = dedupe (a ∷ seen) rest in if has a seen then skipped else a ∷ kept

-- `NewClientConnPool`
unfoldable pub new_client_conn_pool : PoolConfig → Option ClientConnPool
unfolding validate dedupe
new_client_conn_pool c =
    if validate c
    then some record {
      servers =
          map (λ a. record { addr = a; connected = false; is_leader = false })
            (dedupe [] c.server_addrs);
      leader_index = none;
    }
    else none

-- A write to the server at an index; out of range there is none.
unfoldable pub change_server : ℕ → (ServerConn → ServerConn) → List ServerConn → List ServerConn
change_server i change [] = []
change_server zero change (s ∷ ss) = change s ∷ ss
change_server (suc i) change (s ∷ ss) = s ∷ change_server i change ss

-- `connectLoop`: the dial succeeds.
unfoldable pub connect : ℕ → ClientConnPool → ClientConnPool
connect i p = record p { servers = change_server i (λ s. record s { connected = true }) p.servers }

-- `connectLoop` and `readLoop`: the connection is lost.
unfoldable pub disconnect : ℕ → ClientConnPool → ClientConnPool
disconnect i p = record {
  servers = change_server i (λ s. record s { connected = false; is_leader = false }) p.servers;
  leader_index = elim p.leader_index [ none ↦ none | some j ↦ if j == i then none else some j ];
}

-- The loop over the servers for the new leader: its flag, and the last index with its address
unfoldable pub promote : String → List ServerConn → List ServerConn
promote new [] = []
promote new (s ∷ ss) =
    (if str_eq s.addr new then record s { is_leader = true } else s) ∷ promote new ss

unfoldable pub last_index : String → List ServerConn → Option ℕ
last_index new [] = none
last_index new (s ∷ ss) = elim (last_index new ss) [
  | some j ↦ some (suc j)
  | none ↦ if str_eq s.addr new then some 0 else none
]

-- The loop for the old leader
unfoldable pub demote : String → List ServerConn → List ServerConn
demote old [] = []
demote old (s ∷ ss) =
    (if str_eq s.addr old then record s { is_leader = false } else s) ∷ demote old ss

-- `handleLeaderChange`
unfoldable pub handle_leader_change : String → String → ClientConnPool → ClientConnPool
unfolding promote last_index demote
handle_leader_change new old p = record {
  servers = demote old (promote new p.servers);
  leader_index = elim (last_index new p.servers) [ some i ↦ some i | none ↦ p.leader_index ];
}

unfoldable pub server_at : ℕ → List ServerConn → Option ServerConn
server_at i [] = none
server_at zero (s ∷ ss) = some s
server_at (suc i) (s ∷ ss) = server_at i ss

-- The address, or the empty text if there is no server
abbrev pub addr_of : Option ServerConn → String
addr_of none = ""
addr_of (some s) = s.addr

-- `LeaderAddr`
unfoldable pub leader_addr : ClientConnPool → String
unfolding server_at
leader_addr p = elim p.leader_index [ none ↦ "" | some i ↦ addr_of (server_at i p.servers) ]

-- `connectLoop`: the wait after a failed dial, a signed word
unfoldable pub next_backoff : PoolConfig → ℕ → ℕ
next_backoff c backoff =
    let doubled = backoff * 2 % 2 ^ 64 in
    if ltb doubled (2 ^ 63) && ltb c.max_reconnect doubled then c.max_reconnect else doubled

-- The wait after `n` failed dials in a row
unfoldable pub backoff_after : PoolConfig → ℕ → ℕ
unfolding next_backoff
backoff_after c zero = c.reconnect_backoff
backoff_after c (suc n) = next_backoff c (backoff_after c n)
