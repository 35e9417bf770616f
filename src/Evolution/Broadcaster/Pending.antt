-- ===== src/Evolution/Broadcaster/Pending.antt =====
-- pkg/reef/evolution/server/broadcaster.go: the genes that wait for a client.
use reef.Prelude.{
  ℕ, ◌<◌, ◌≡◌, refl, inl, inr, true, List, [], ◌∷◌, ◌++◌, String, str_eq, eq_iff, eq_refl, arith,
  lookup-insert, if◌then◌else◌, has, Bool-cases,
}
use reef.Evolution.Broadcaster.{Broadcaster, get_pending_sync_ids, with_entry, record_offline}

pub has-append_last : (g : String) (xs : List String) → has g (xs ++ g ∷ []) ≡ true
has-append_last g [] = rw (eq_refl g) refl
has-append_last g (x ∷ xs) = ground (arith, has-append_last g xs)

pub with_entry-has :
    (limit : ℕ) (g : String) (entries : List String)
    → 0 < limit
    → has g (with_entry limit g entries) ≡ true
unfolding with_entry
with_entry-has limit g [] h = ground (arith, eq_refl g)
with_entry-has limit g (x ∷ xs) h = ground (arith, has-append_last g xs, has-append_last g (x ∷ xs))

-- How an entry for one client shows when any client is read.
pub pending-record :
    (client other gene : String) (b : Broadcaster)
    → get_pending_sync_ids other (record_offline client gene b) ≡ (
        if str_eq client other
        then with_entry b.max_pending gene (get_pending_sync_ids client b)
        else get_pending_sync_ids other b)
unfolding record_offline get_pending_sync_ids with_entry
pending-record client other gene b = ground (
  arith,
  lookup-insert client other (with_entry b.max_pending gene (get_pending_sync_ids client b))
      b.pending_sync,
  eq_iff client other,
)

pub record-limit :
    (client gene : String) (b : Broadcaster)
    → (record_offline client gene b).max_pending ≡ b.max_pending
unfolding record_offline
record-limit client gene b = ground arith

pub record-has :
    (client other gene : String) (b : Broadcaster)
    → 0 < b.max_pending
    → has gene (get_pending_sync_ids other b) ≡ true
    → has gene (get_pending_sync_ids other (record_offline client gene b)) ≡ true
record-has client other gene b p h = elim (Bool-cases (str_eq client other)) [
  | inl e ↦ rw (pending-record client other gene b, e) (with_entry-has _ _ _ p)
  | inr e ↦ rw (pending-record client other gene b, e) h
]

pub record-has_self :
    (client gene : String) (b : Broadcaster)
    → 0 < b.max_pending
    → has gene (get_pending_sync_ids client (record_offline client gene b)) ≡ true
record-has_self client gene b p =
    rw (pending-record client client gene b, eq_refl client) (with_entry-has _ _ _ p)
