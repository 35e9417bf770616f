-- ===== src/Client/Match.antt =====
-- When a client may take a task (pkg/reef/client_info.go).
use reef.Prelude.{
  ◌<◌, ◌≡◌, refl, ◌↔◌, true, inl, inr, List, [], ◌∷◌, String, str_eq, eq_iff, arith, has, In, All,
  Bool-cases,
}
use reef.Client.{ClientState, ClientInfo, is_available, has_skills, matches, remaining_capacity}

has_iff : (x : String) (xs : List String) → (has x xs ≡ true) ↔ In x xs
has_iff x [] = (λ e. cc, λ i. absurd i)
has_iff x (y ∷ xs) =
    let (to, from) = has_iff x xs in
    (
      λ e. elim (Bool-cases (str_eq y x)) [
        | inl s ↦ inl ((eq_iff y x).0 s)
        | inr n ↦ inr (to (rw n at e))
      ],
      elim [ inl e ↦ rw ((eq_iff y x).1 e) | inr i ↦ ground (arith, from i) ],
    )

has_skills_iff :
    (skills reqs : List String) → (has_skills skills reqs ≡ true) ↔ All (λ r. In r skills) reqs
unfolding has_skills
has_skills_iff skills [] = (λ e. tt, λ i. refl)
has_skills_iff skills (r ∷ reqs) =
    let (to, from) = has_skills_iff skills reqs in
    let (a, b) = has_iff r skills in
    (λ e. (a (ground arith), to (ground arith)), λ h. ground (arith, b h.0, from h.1))

-- A client matches exactly if it has the required role and each of the required skills.
pub matches_iff :
    (c : ClientInfo) (role : String) (skills : List String)
    → (matches c role skills ≡ true) ↔ (c.role ≡ role) × All (λ r. In r c.skills) skills
unfolding matches
matches_iff c role skills =
    let (to, from) = has_skills_iff c.skills skills in
    (
      λ e. ((eq_iff c.role role).0 (ground arith), to (ground arith)),
      λ h. ground (arith, (eq_iff c.role role).1 h.0, from h.1),
    )

-- A client is available exactly if it is connected and has capacity remaining.
pub available_iff :
    (c : ClientInfo)
    → (is_available c ≡ true) ↔ (c.state ≡ ClientState.connected) × (0 < remaining_capacity c)
unfolding is_available remaining_capacity
available_iff c = (λ e. (ground arith, ground arith), λ h. ground arith)
