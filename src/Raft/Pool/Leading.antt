-- ===== src/Raft/Pool/Leading.antt =====
-- pkg/reef/raft/pool.go: the servers of a pool, its leader, and the waits between dials.
use reef.Prelude.{
  ℕ, zero, suc, ◌*◌, ◌^◌, ◌<◌, ◌≡◌, refl, ap, ◌∙◌, inl, inr, true, false, not, ◌&&◌, List, [], ◌∷◌,
  map, none, some, String, str_eq, eq_iff, eq_refl, ltb, if◌then◌else◌, has, Bool-cases,
  Option-cases, arith,
}
use native.Mathlib.Nat.{pow-suc}
use reef.Raft.Pool.{
  addr_of, ServerConn, PoolConfig, ClientConnPool, validate, dedupe, new_client_conn_pool, promote,
  last_index, demote, handle_leader_change, server_at, leader_addr, next_backoff, backoff_after,
}

-- No text stands twice in the list.
abbrev pub AreDistinct : List String → Type 0
AreDistinct [] = Unit
AreDistinct (a ∷ rest) = (has a rest ≡ false) × AreDistinct rest

has-dedupe :
    (a : String) (seen rest : List String)
    → has a (dedupe seen rest) ≡ (has a rest && not (has a seen))
unfolding dedupe
has-dedupe a seen [] = refl
has-dedupe a seen (b ∷ rest) =
    let skipped = has-dedupe a seen rest in
    let kept = has-dedupe a (b ∷ seen) rest in ground (arith, skipped, kept, eq_iff b a, same)
  where
    same : str_eq b a ≡ true → has b seen ≡ has a seen
    same e = ap (λ x. has x seen) ((eq_iff b a).0 e)

dedupe-AreDistinct : (seen rest : List String) → AreDistinct (dedupe seen rest)
unfolding dedupe
dedupe-AreDistinct seen [] = tt
dedupe-AreDistinct seen (b ∷ rest) = elim (Bool-cases (has b seen)) [
  | inl s ↦ rw (dedupe, s) (dedupe-AreDistinct seen rest)
  | inr n ↦
      rw (dedupe, n)
        (
          has-dedupe b (b ∷ seen) rest ∙ ground (arith, eq_refl b),
          dedupe-AreDistinct (b ∷ seen) rest,
        )
]

-- After the flags are written, the address stands at the index.
abbrev IsAt : String → String → ℕ → List ServerConn → Type 0
IsAt new old i ss =
    (s : ServerConn) × (server_at i (demote old (promote new ss)) ≡ some s) × (s.addr ≡ new)

-- The address at the last index of it, after the flags are written
last_index_addr :
    (new old : String) (i : ℕ) (ss : List ServerConn)
    → last_index new ss ≡ some i
    → IsAt new old i ss
unfolding last_index server_at demote promote
last_index_addr new old i [] h = absurd (ground (arith, h))
last_index_addr new old i (s ∷ ss) h = elim (Option-cases (last_index new ss)) [
  | inr (j, e) ↦ later j (last_index_addr new old j ss e) (injective (rw (last_index, e) at h))
  | inl n ↦ elim (Bool-cases (str_eq s.addr new)) [
    | inl e ↦ first e (injective (rw (last_index, n, e) at h))
    | inr d ↦ absurd (ground (arith, rw (last_index, n, d) at h))
  ]
]
  where
    injective : {a b : ℕ} → some a ≡ some b → a ≡ b
    injective k = cc

    first : str_eq s.addr new ≡ true → 0 ≡ i → IsAt new old i (s ∷ ss)
    first e z = rw (← z) (_, refl, ground (arith, e, eq_iff s.addr new))

    later : (j : ℕ) → IsAt new old j ss → suc j ≡ i → IsAt new old i (s ∷ ss)
    later j e z = rw (← z) e

abbrev pub addrs : List ServerConn → List String
addrs ss = map (λ s. s.addr) ss

unknown_leader :
    (new : String) (ss : List ServerConn) → last_index new ss ≡ none → has new (addrs ss) ≡ false
unfolding last_index
unknown_leader new [] h = refl
unknown_leader new (s ∷ ss) h = elim (Option-cases (last_index new ss)) [
  | inl n ↦ let rest = unknown_leader new ss n in ground (arith, rest, rw (last_index, n) at h)
  | inr (j, e) ↦ absurd (ground (arith, rw (last_index, e) at h))
]

known_leader :
    (new : String) (ss : List ServerConn) (i : ℕ)
    → last_index new ss ≡ some i
    → has new (addrs ss) ≡ true
unfolding last_index
known_leader new [] i h = absurd (ground (arith, h))
known_leader new (s ∷ ss) i h = elim (Option-cases (last_index new ss)) [
  | inr (j, e) ↦ let rest = known_leader new ss j e in ground (arith, rest)
  | inl n ↦ ground (arith, rw (last_index, n) at h)
]

unchanged_addr :
    (new old : String) (i : ℕ) (ss : List ServerConn)
    → addr_of (server_at i (demote old (promote new ss))) ≡ addr_of (server_at i ss)
unfolding server_at demote promote
unchanged_addr new old i [] = refl
unchanged_addr new old zero (s ∷ ss) = ground arith
unchanged_addr new old (suc i) (s ∷ ss) = unchanged_addr new old i ss

-- After a change of the leader to the address of a server, that address is the leader's, whatever leader was
-- known; a change to an unknown address leaves the leader's address as it was.
pub leader_addr-change :
    (new old : String) (p : ClientConnPool)
    → leader_addr (handle_leader_change new old p)
      ≡ (if has new (addrs p.servers) then new else leader_addr p)
unfolding leader_addr handle_leader_change
leader_addr-change new old p = elim (Option-cases (last_index new p.servers)) [
  | inr (i, e) ↦
      let (s, at_i, same) = last_index_addr new old i p.servers e in
      rw (known_leader new p.servers i e, leader_addr, handle_leader_change, e, at_i) same
  | inl n ↦
      rw (unknown_leader new p.servers n, leader_addr, handle_leader_change, n)
        (elim (Option-cases p.leader_index) [
          | inl l ↦ rw (leader_addr, l) refl
          | inr (i, l) ↦ rw (leader_addr, l) (unchanged_addr new old i p.servers)
        ])
]

abbrev fresh_servers : List String → List ServerConn
fresh_servers = map (λ a. record { addr = a; connected = false; is_leader = false })

fresh_addrs : (names : List String) → addrs (fresh_servers names) ≡ names
fresh_addrs [] = refl
fresh_addrs (a ∷ names) = ap (λ r. a ∷ r) (fresh_addrs names)

-- A pool is made for a valid configuration only, and has one server for each configured
-- address: no address twice, each of them, and no other.
pub new_client_conn_pool_lem :
    (c : PoolConfig) (p : ClientConnPool)
    → new_client_conn_pool c ≡ some p
    → (validate c ≡ true)
      × AreDistinct (addrs p.servers)
      × ((a : String) → has a (addrs p.servers) ≡ has a c.server_addrs)
unfolding new_client_conn_pool
new_client_conn_pool_lem c p h = elim (Bool-cases (validate c)) [
  | inr n ↦ absurd (ground (arith, rw (new_client_conn_pool, n) at h))
  | inl v ↦
      let (distinct, same) = made (injective (rw (new_client_conn_pool, v) at h)) in
      (v, distinct, same)
]
  where
    injective : {a b : ClientConnPool} → some a ≡ some b → a ≡ b
    injective k = cc

    made :
        record { servers = fresh_servers (dedupe [] c.server_addrs); leader_index = none } ≡ p
        → AreDistinct (addrs p.servers)
          × ((a : String) → has a (addrs p.servers) ≡ has a c.server_addrs)
    made e =
        rw (← e, fresh_addrs (dedupe [] c.server_addrs))
          (dedupe-AreDistinct [] c.server_addrs, λ a. has-dedupe a [] c.server_addrs ∙ ground arith)

times_power : (r n : ℕ) → r * 2 ^ n * 2 ≡ r * 2 ^ suc n
times_power r n = omega (arith, ap (λ (t : ℕ). r * t) (pow-suc 2 n))

next_backoff_step :
    (c : PoolConfig) (b w : ℕ)
    → c.max_reconnect < 2 ^ 62
    → 0 < c.max_reconnect
    → b ≡ (if ltb c.max_reconnect w then c.max_reconnect else w)
    → next_backoff c b ≡ (if ltb c.max_reconnect (w * 2) then c.max_reconnect else w * 2)
unfolding next_backoff
next_backoff_step c b w m p h = ground (arith, m, p, h)

-- With a valid configuration, the wait after `n` failed dials is the first wait doubled `n` times, but at most
-- the limit; the limit is below 2^62 nanoseconds.
pub backoff_lem :
    (c : PoolConfig) (n : ℕ)
    → validate c ≡ true
    → c.max_reconnect < 2 ^ 62
    → backoff_after c n ≡ (
        if ltb c.max_reconnect (c.reconnect_backoff * 2 ^ n)
        then c.max_reconnect
        else c.reconnect_backoff * 2 ^ n)
unfolding backoff_after next_backoff validate
backoff_lem c zero h m = ground (arith, h)
backoff_lem c (suc n) h m =
    let before = backoff_lem c n h m in
    next_backoff_step c (backoff_after c n) (c.reconnect_backoff * 2 ^ n) m (ground (arith, h))
      before
    ∙ ap (λ w. if ltb c.max_reconnect w then c.max_reconnect else w)
        (times_power c.reconnect_backoff n)
