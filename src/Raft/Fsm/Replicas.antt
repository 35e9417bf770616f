-- ===== src/Raft/Fsm/Replicas.antt =====
-- pkg/reef/raft/types.go: `Snapshot`, `Restore` and `Equal`: a replica that starts from a snapshot.
use reef.Prelude.{
  ◌≡◌, ◌<◌, ◌≤◌, ◌+◌, ◌^◌, ◌↔◌, refl, ap, sym, ◌∙◌, inl, inr, Bool, true, false, Option, some,
  String, str_eq, eq_refl, List, ◌∷◌, [], ◌++◌, Option-cases, arith,
}
use reef.Raft.Fsm.{should_compact, FsmSnapshot, ReefFsm, Json, Entry, snapshot, restore}
use reef.Raft.Fsm.Invariant.{EntryType-cases}
use reef.Raft.Fsm.Apply.{apply_command, apply, apply_all}

-- `Equal`: the two texts are compared.
unfoldable pub equal : (FsmSnapshot → String) → ReefFsm → ReefFsm → Bool
equal encode f g = str_eq (encode f.maps) (encode g.maps)

apply-maps :
    (json : Json) (e : Entry) (f g : ReefFsm)
    → f.maps ≡ g.maps
    → (apply json e f).0.maps ≡ (apply json e g).0.maps
unfolding apply
apply-maps json e f g h = elim (EntryType-cases e.type) [
  | inl o ↦ rw (o, apply) h
  | inr r ↦ elim (Option-cases (json.command e.content)) [
    | inl n ↦ rw (r, apply, n) h
    | inr (c, s) ↦ rw (r, apply, s) (ap (λ m. (apply_command json c m).0) h)
  ]
]

pub apply_all-maps :
    (json : Json) (es : List Entry) (f g : ReefFsm)
    → f.maps ≡ g.maps
    → (apply_all json es f).maps ≡ (apply_all json es g).maps
unfolding apply_all
apply_all-maps json [] f g h = h
apply_all-maps json (e ∷ es) f g h =
    apply_all-maps json es (apply json e f).0 (apply json e g).0 (apply-maps json e f g h)

pub apply_all-append :
    (json : Json) (es later : List Entry) (f : ReefFsm)
    → apply_all json (es ++ later) f ≡ apply_all json later (apply_all json es f)
unfolding apply_all
apply_all-append json [] later f = refl
apply_all-append json (e ∷ es) later f = apply_all-append json es later (apply json e f).0

pub restore-decode :
    (decode : String → Option FsmSnapshot) (text : String) (m : FsmSnapshot) (g : ReefFsm)
    → decode text ≡ some m
    → str_eq text "" ≡ false
    → restore decode text g ≡ (record g { maps = m }, true)
unfolding restore
restore-decode decode text m g d n = rw (restore, n, d) refl

equal_of_maps :
    (encode : FsmSnapshot → String) (f g : ReefFsm) → f.maps ≡ g.maps → equal encode f g ≡ true
unfolding equal
equal_of_maps encode f g h = rw (equal, h) (eq_refl (encode g.maps))

-- A replica that is restored from a snapshot and applies the later entries ends with the maps of one that has
-- applied all entries, and is equal to it, if the decoder reads what the encoder writes for the maps of the
-- snapshot, a text that is not empty.
pub snapshot-restore :
    (json : Json) (encode : FsmSnapshot → String) (decode : String → Option FsmSnapshot)
    (es later : List Entry) (f g : ReefFsm)
    → decode (encode (apply_all json es f).maps) ≡ some (apply_all json es f).maps
    → str_eq (encode (apply_all json es f).maps) "" ≡ false
    → let (_, text) = snapshot encode (apply_all json es f) in
      let (h, ok) = restore decode text g in
      (ok ≡ true)
      × ((apply_all json later h).maps ≡ (apply_all json (es ++ later) f).maps)
      × (equal encode (apply_all json later h) (apply_all json (es ++ later) f) ≡ true)
unfolding snapshot restore equal
snapshot-restore json encode decode es later f g d n =
    let m = (apply_all json es f).maps in
    let r = restore-decode decode (encode m) m g d n in
    let agree = apply_all-maps json later (record g { maps = m }) (apply_all json es f) refl in
    let whole = agree ∙ ap (λ f. f.maps) (sym (apply_all-append json es later f)) in
    (
      ap (λ r. r.1) r,
      ap (λ r. (apply_all json later r.0).maps) r ∙ whole,
      rw r (
          equal_of_maps encode (apply_all json later (record g { maps = m }))
            (apply_all json (es ++ later) f) whole),
    )

-- `ShouldCompact`, while the indices are machine words and the snapshot is not ahead of what is applied: the
-- threshold is on, and more entries than it stand after the snapshot.
pub should_compact_iff :
    (f : ReefFsm)
    → f.applied_index < 2 ^ 64
    → f.snapshot_index ≤ f.applied_index
    → should_compact f ≡ true
      ↔ ((0 < f.compact_thresh) × (f.snapshot_index + f.compact_thresh < f.applied_index))
unfolding should_compact
should_compact_iff f h k = ground arith
