-- ===== src/OrgTree.antt =====
-- src/org/org-tree.service.ts: the chain of a node's ancestors, the subtree below a node, and the
-- value that a node inherits.
pub mod Ancestry
mod Examples
use hara_control.Common.{
  find, has, ℕ, zero, suc, String, Bool, true, false, Option, none, some, List, [], ◌∷◌, ◌++◌, ◌==◌,
  if◌then◌else◌, Fault, failure, Outcome, ok, err, ◌>>=◌, ◌>>◌,
}

pub record Organization : Type 0 where
  pub id : String
  pub parent_id : Option String
  -- policyJson and the other columns, which the walks do not look at
  pub policy : String

abbrev pub max_org_depth : ℕ
max_org_depth = 64

unfoldable pub select_inherited {ℓ κ} :
    {N : Type ℓ} {T : Type κ} → List N → (N → Option T) → Option T
select_inherited [] pick = none
select_inherited (node ∷ chain) pick = elim (pick node) [
  | some v ↦ some v
  | none ↦ select_inherited chain pick
]

-- A table of organizations.
unfoldable pub find_unique : List Organization → String → Option Organization
find_unique rows key = find (λ r. r.id == key) rows

-- `while (currentId)`: an id that is null, or the empty text, ends the walk.
unfoldable pub following : Option String → Option String
following none = none
following (some key) = if key == "" then none else some key

abbrev pub is_empty {ℓ} : {A : Type ℓ} → List A → Bool
is_empty [] = true
is_empty (x ∷ xs) = false

abbrev cycle : Fault
cycle = failure "org hierarchy cycle detected (a node cannot be its own ancestor)"

abbrev too_deep : Fault
too_deep = failure "org hierarchy too deep — likely a cycle"

module _ (rows : List Organization) (org : String) where
  -- The loop of `ancestors`: the depth that is left (max_org_depth less the chain's length), the ids
  -- seen, the chain so far, and the id to look up. The texts of the errors leave out the ids.
  unfoldable pub walk :
      ℕ → List String → List Organization → Option String → Outcome (List Organization)
  walk left seen chain none = ok chain
  walk zero seen chain (some key) = if has seen key then err cycle else err too_deep
  walk (suc left) seen chain (some key) =
      if has seen key then err cycle else elim (find_unique rows key) [
        | none ↦ if is_empty chain then err (failure "org not found") else ok chain
        | some node ↦ walk left (key ∷ seen) (chain ++ node ∷ []) (following node.parent_id)
      ]

  unfoldable pub ancestors : Outcome (List Organization)
  ancestors = walk max_org_depth [] [] (following (some org))

  unfoldable pub resolve_inherited {ℓ} :
      {T : Type ℓ} → (Organization → Option T) → Outcome (Option T)
  resolve_inherited pick = do chain ← ancestors; ok (select_inherited chain pick)
