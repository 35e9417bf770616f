-- ===== src/Client.antt =====
-- pkg/reef/client_info.go: what the server knows of a connected client. `Capacity` and
-- `CurrentLoad` are counts: the websocket handler registers a client with load 0, and the
-- connector sends a capacity of at least 1.
pub mod Match
use reef.Prelude.{
  ℕ, ◌-◌, Bool, true, false, not, ◌&&◌, List, [], ◌∷◌, String, str_eq, has, ltb, if◌then◌else◌,
}

pub data ClientState : Type 0 where
  connected disconnected stale : ClientState

pub ClientState-discrete : Discrete ClientState
ClientState-discrete = hlevel

pub record ClientInfo : Type 0 where
  pub id : String
  pub role : String
  pub skills : List String
  pub providers : List String
  pub capacity : ℕ
  pub current_load : ℕ
  pub last_heartbeat : ℕ
  pub state : ClientState

unfoldable pub is_connected : ClientState → Bool
is_connected ClientState.connected = true
is_connected _ = false

unfoldable pub is_stale : ClientState → Bool
is_stale ClientState.stale = true
is_stale _ = false

unfoldable pub is_available : ClientInfo → Bool
unfolding is_connected
is_available c = is_connected c.state && ltb c.current_load c.capacity

-- The loop over the required skills.
unfoldable pub has_skills : List String → List String → Bool
has_skills skills [] = true
has_skills skills (req ∷ rest) = if not (has req skills) then false else has_skills skills rest

unfoldable pub matches : ClientInfo → String → List String → Bool
unfolding has_skills
matches c required_role required_skills =
    if not (str_eq c.role required_role) then false else has_skills c.skills required_skills

-- `-` stops at 0, where the source returns 0 for a negative difference.
unfoldable pub remaining_capacity : ClientInfo → ℕ
remaining_capacity c = c.capacity - c.current_load
