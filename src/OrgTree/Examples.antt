-- ===== src/OrgTree/Examples.antt =====
-- A team below a company.
use hara_control.Common.{
  find, any, has, ◌≤◌, String, ◌≡◌, refl, inl, Option, none, some, List, [], ◌∷◌, arith, ◌==◌,
  if◌then◌else◌, ok,
}
use hara_control.OrgTree.{Organization, max_org_depth, find_unique, following, walk, ancestors}
use hara_control.OrgTree.Ancestry.{IsLineage, ancestors-IsLineage, IsLineage-ancestors}

abbrev team : Organization
team = record { id = "team"; parent_id = some "company"; policy = "" }

abbrev company : Organization
company = record { id = "company"; parent_id = none; policy = "deny" }

abbrev tree : List Organization
tree = company ∷ team ∷ []

team-IsLineage : IsLineage tree [] (following (some "team")) (team ∷ company ∷ [])
unfolding following has find_unique any find
team-IsLineage = ("team", refl, refl, refl, ("company", refl, refl, refl, inl refl))

IsLineage-ancestors_example : ancestors tree "team" ≡ ok (team ∷ company ∷ [])
IsLineage-ancestors_example =
    IsLineage-ancestors tree "team" (team ∷ company ∷ []) team-IsLineage refl (omega arith)

team_chain : ancestors tree "team" ≡ ok (team ∷ company ∷ [])
unfolding ancestors walk following has find_unique any find
team_chain = refl

ancestors-IsLineage_example :
    IsLineage tree [] (following (some "team")) (team ∷ company ∷ []) × (2 ≤ max_org_depth)
ancestors-IsLineage_example = ancestors-IsLineage tree "team" (team ∷ company ∷ []) team_chain

abbrev policy_of : Organization → Option String
policy_of node = if node.policy == "" then none else some node.policy
