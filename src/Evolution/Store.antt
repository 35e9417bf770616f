-- ===== src/Evolution/Store.antt =====
-- The interface `GeneStore` of pkg/reef/evolution/server/hub.go: its operations on a store, without
-- CountByStatus, which no component calls, and the laws of a table of genes that the components rely on.
use reef.Prelude.{ℕ, ◌≡◌, ◌⊎◌, Bool, true, List, Option, String, In}
use reef.Raft.Fsm.{Gene}

-- An operation that fails is `none`, or false where it changes the store.
pub record GeneStore (S : Type 0) : Type 0 where
  pub get_gene : String → S → Option (Option Gene)
  pub insert_gene : Gene → S → S × Bool
  pub update_gene : Gene → S → S × Bool
  pub approved_genes : String → ℕ → S → Option (List Gene)
  pub count_approved : String → S → Option ℕ

-- `kept g` is how the table keeps `g`, for instance with its times in seconds.
pub record GeneLaws {S : Type 0} (ops : GeneStore S) : Type 0 where
  pub rows : S → List Gene
  pub kept : Gene → Gene
  pub kept_id : (g : Gene) → (kept g).id ≡ g.id
  pub kept_status : (g : Gene) → (kept g).status ≡ g.status
  pub kept_control_signal : (g : Gene) → (kept g).control_signal ≡ g.control_signal
  pub kept_match_condition : (g : Gene) → (kept g).match_condition ≡ g.match_condition
  pub insert_rows :
      (g x : Gene) (s : S) → In x (rows (ops.insert_gene g s).0) → (x ≡ kept g) ⊎ In x (rows s)
  pub update_rows :
      (g x : Gene) (s : S) → In x (rows (ops.update_gene g s).0) → (x ≡ kept g) ⊎ In x (rows s)
  pub inserted :
      (g : Gene) (s : S)
      → (ops.insert_gene g s).1 ≡ true
      → In (kept g) (rows (ops.insert_gene g s).0)
  pub updated :
      (g : Gene) (s : S)
      → (ops.update_gene g s).1 ≡ true
      → In (kept g) (rows (ops.update_gene g s).0)
