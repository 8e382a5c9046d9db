-- ===== src/OrgTree/Ancestry.antt =====
-- What the chain of ancestors is: the nodes reached by parent links, no id twice, within the depth.
use hara_control.Common.{
  has, length, All, ℕ, zero, suc, ◌≤◌, ◌<◌, String, ◌≡◌, refl, sym, ap, ◌∙◌, ◌↔◌, ◌⊎◌, inl, inr,
  false, Option, none, some, List, [], ◌∷◌, ◌++◌, append-nil, append_assoc, arith, Bool-cases,
  Option-cases, ok,
}
use hara_control.OrgTree.{
  Organization, max_org_depth, select_inherited, find_unique, following, is_empty, walk, ancestors,
}

module _ (rows : List Organization) where
  -- The nodes that the parent links lead to from an id, none of them in `seen` and no id twice, up
  -- to a node without a parent or with a parent that is not in the table.
  abbrev pub IsLineage : List String → Option String → List Organization → Type 0
  IsLineage seen key [] =
      (key ≡ none)
      ⊎ ((k : String) × (key ≡ some k) × (has seen k ≡ false) × (find_unique rows k ≡ none))
  IsLineage seen key (node ∷ rest) =
      (k : String) × (key ≡ some k)
      × (has seen k ≡ false)
      × (find_unique rows k ≡ some node)
      × IsLineage (k ∷ seen) (following node.parent_id) rest

  walk-IsLineage :
      (org : String) (left : ℕ) (seen : List String) (chain : List Organization)
      (key : Option String) {out : List Organization}
      → walk rows org left seen chain key ≡ ok out
      → (rest : List Organization) × (out ≡ chain ++ rest)
        × (length rest ≤ left)
        × IsLineage seen key rest
  unfolding walk
  walk-IsLineage org left seen chain none h =
      ([], ground arith ∙ sym (append-nil chain), omega arith, inl refl)
  walk-IsLineage org zero seen chain (some key) h = ground arith
  walk-IsLineage org (suc left) seen chain (some key) {out} h = elim (Bool-cases (has seen key)) [
    | inl again ↦ ground arith
    | inr new ↦ elim (Option-cases (find_unique rows key)) [
      | inl missing ↦
          ([], ground arith ∙ sym (append-nil chain), omega arith, inr (key, refl, new, missing))
      | inr (node, found) ↦
          let (rest, e, fits, line) =
            walk-IsLineage org left (key ∷ seen) (chain ++ node ∷ []) (following node.parent_id)
              {out = out} (ground arith) in
          (
            node ∷ rest,
            e ∙ append_assoc chain (node ∷ []) rest,
            ground (arith, fits),
            (key, refl, new, found, line),
          )
    ]
  ]

  IsLineage-walk :
      (org : String) (left : ℕ) (seen : List String) (chain : List Organization)
      (key : Option String) (rest : List Organization)
      → IsLineage seen key rest
      → length rest < left
      → is_empty (chain ++ rest) ≡ false
      → walk rows org left seen chain key ≡ ok (chain ++ rest)
  unfolding walk
  IsLineage-walk org zero seen chain key rest line fits some_node =
      let no : ⊥ = omega arith in elim no [ ]
  IsLineage-walk org (suc left) seen chain key [] (inl e) fits some_node =
      rw (e, append-nil chain) refl
  IsLineage-walk org (suc left) seen chain key [] (inr (k, e, new, missing)) fits some_node =
      let whole : is_empty chain ≡ false = rw (append-nil chain) at some_node in
      rw (e, new, missing, whole, append-nil chain) refl
  IsLineage-walk org (suc left) seen chain key (node ∷ rest) (k, e, new, found, line) fits
        some_node =
      let again =
        IsLineage-walk org left (k ∷ seen) (chain ++ node ∷ []) (following node.parent_id) rest line
          (ground (arith, fits)) in
      let assoc = append_assoc chain (node ∷ []) rest in
      rw (e, new, found, sym assoc) (again (rw assoc some_node))

  -- A chain of ancestors that `ancestors` returns is the lineage of the organization: the first row
  -- is the organization's own, each further row is the one that the row before names as its parent,
  -- no id is looked up twice, the last row has no parent in the table, and there are at most 64
  -- rows.
  pub ancestors-IsLineage :
      (org : String) (chain : List Organization)
      → ancestors rows org ≡ ok chain
      → IsLineage [] (following (some org)) chain × (length chain ≤ max_org_depth)
  unfolding ancestors
  ancestors-IsLineage org chain h =
      let (rest, e, fits, line) =
        walk-IsLineage org max_org_depth [] [] (following (some org)) {out = chain} h in
      rw e (line, fits)

  -- The lineage of an organization, if it has between one and 63 rows, is what `ancestors` returns.
  pub IsLineage-ancestors :
      (org : String) (chain : List Organization)
      → IsLineage [] (following (some org)) chain
      → is_empty chain ≡ false
      → length chain < max_org_depth
      → ancestors rows org ≡ ok chain
  unfolding ancestors
  IsLineage-ancestors org chain line nonempty fits =
      IsLineage-walk org max_org_depth [] [] (following (some org)) chain line fits nonempty

module _ {ℓ κ} {N : Type ℓ} {T : Type κ} (pick : N → Option T) where
  nearest :
      (chain : List N) {v : T}
      → select_inherited chain pick ≡ some v
      → (before : List N) × (node : N) × (after : List N) × (chain ≡ before ++ node ∷ after)
        × All (λ n. pick n ≡ none) before
        × (pick node ≡ some v)
  unfolding select_inherited
  nearest [] h = cc
  nearest (node ∷ chain) {v} h = elim (Option-cases (pick node)) [
    | inr (w, here) ↦ ([], node, chain, refl, tt, ground arith)
    | inl bare ↦
        let (before, hit, after, e, none_before, here) = nearest chain {v = v} (ground arith) in
        (node ∷ before, hit, after, ap (λ r. node ∷ r) e, (bare, none_before), here)
  ]

  nearer :
      (before : List N) (node : N) (after : List N) {v : T}
      → All (λ n. pick n ≡ none) before
      → pick node ≡ some v
      → select_inherited (before ++ node ∷ after) pick ≡ some v
  unfolding select_inherited
  nearer [] node after h here = rw here refl
  nearer (b ∷ before) node after (bare, h) here = rw bare (nearer before node after h here)

  -- The value that a chain of nodes inherits is `v` exactly when some node of the chain has the
  -- value `v` and no node before it has a value.
  pub select_inherited_iff :
      (chain : List N) (v : T)
      → (select_inherited chain pick ≡ some v) ↔ (
          (before : List N) × (node : N) × (after : List N) × (chain ≡ before ++ node ∷ after)
          × All (λ n. pick n ≡ none) before
          × (pick node ≡ some v))
  select_inherited_iff chain v =
      (nearest chain, λ (before, node, after, e, h, here). rw e (nearer before node after h here))
