-- ===== src/BehaviorTree/Order.antt =====
-- The trees that `AddNode` builds: a child comes behind its parent, so that a tick ends; and what
-- happens to a node that is given its own index as its parent.
use Prim.Native.String.{String}
use newosp.Base.{
  ap, some-injective, sym, subst, ◌⊎◌, ℕ, suc, ◌≤◌, ◌<◌, List, [], ◌∷◌, ◌++◌, Option, none, some,
  ◌≡◌, ◌≢◌, refl, arith, length, get_elem?, set, All, All-append, get_elem?-lt, get_elem?-append,
  get_elem?-append_end, get_elem?-set_self, get_elem?-set_ne, length-append, length-set, inl, inr,
  dec_lt, ℕ_discrete,
}
use newosp.BehaviorTree.Construction.{link_to, adopt, new_node, link, add_node}
use newosp.BehaviorTree.{NodeType, TickFn, BtNode, BehaviorTree}

-- The children of the node at `i` come behind it, and are in an array of `n` nodes.
abbrev pub Behind : ℕ → ℕ → List ℕ → Type 0
Behind n i = All (λ child. (i < child) × (child < n))

Behind-mono : (n n' i : ℕ) (children : List ℕ) → n ≤ n' → Behind n i children → Behind n' i children
Behind-mono n n' i [] h b = tt
Behind-mono n n' i (c ∷ cs) h b = ((b.0.0, omega arith), Behind-mono n n' i cs h b.1)

-- Every child of a node comes behind it, and is in the array.
abbrev pub IsOrdered {ℓ} : {C : Type ℓ} → List (BtNode C) → Type ℓ
IsOrdered {C} nodes =
    (i : ℕ) (node : BtNode C)
    → get_elem? nodes i ≡ some node
    → Behind (length nodes) i node.children

module _ {ℓ} {C : Type ℓ} (nodes : List (BtNode C)) (o : IsOrdered nodes) where
  append-IsOrdered : (new : BtNode C) → new.children ≡ [] → IsOrdered (nodes ++ (new ∷ []))
  append-IsOrdered new e i node at = elim (dec_lt i (length nodes)) [
    | yes h ↦
        Behind-mono (length nodes) _ i node.children (omega (arith, length-append nodes (new ∷ [])))
          (o i node (rw (get_elem?-append nodes (new ∷ []) i h) at at))
    | no h ↦
        let last : i ≡ length nodes =
          omega (arith, get_elem?-lt (nodes ++ (new ∷ [])) i at, length-append nodes (new ∷ [])) in
        let childless : node.children ≡ [] =
          ground (arith, get_elem?-append_end nodes new i last, at, e) in
        rw childless tt
  ]

  adopt-IsOrdered :
      (parent idx : ℕ) (p : BtNode C)
      → get_elem? nodes parent ≡ some p
      → parent < idx
      → idx < length nodes
      → IsOrdered (set nodes parent (adopt p idx))
  adopt-IsOrdered parent idx p e lt fits i node at =
      rw (length-set nodes parent (adopt p idx)) (elim (ℕ_discrete parent i) [
        | yes h ↦
            let adopted : node.children ≡ p.children ++ (idx ∷ []) = ground (
              arith,
              get_elem?-set_self nodes parent (adopt p idx) (get_elem?-lt nodes parent e),
              at,
              h,
            ) in
            rw (adopted, ← h) (All-append _ p.children (idx ∷ []) (o parent p e) ((lt, fits), tt))
        | no h ↦ o i node (rw (get_elem?-set_ne nodes parent i (adopt p idx) h) at at)
      ])

module _ {ℓ} {C : Type ℓ} where
  link_to-eq-some :
      (nodes : List (BtNode C)) (parent idx : ℕ) {linked : List (BtNode C)}
      → link_to nodes parent idx ≡ some linked
      → (linked ≡ nodes)
        ⊎ ((p : BtNode C) × (get_elem? nodes parent ≡ some p)
            × (linked ≡ set nodes parent (adopt p idx)))
  link_to-eq-some nodes parent idx e = ground arith

  link-IsOrdered :
      (nodes : List (BtNode C)) (parent : Option ℕ) (idx : ℕ) {linked : List (BtNode C)}
      → IsOrdered nodes
      → suc idx ≡ length nodes
      → parent ≢ some idx
      → link nodes parent idx ≡ some linked
      → IsOrdered linked
  unfolding link
  link-IsOrdered nodes none idx o h ne e = subst (λ l. IsOrdered l) (some-injective _ _ e) o
  link-IsOrdered nodes (some parent) idx o h ne e = elim (link_to-eq-some nodes parent idx e) [
    | inl same ↦ subst (λ l. IsOrdered l) (sym same) o
    | inr (p, found, adopted) ↦
        subst (λ l. IsOrdered l) (sym adopted)
          (adopt-IsOrdered nodes o parent idx p found
            (omega (arith, get_elem?-lt nodes parent found, λ (q : parent ≡ idx). ne (ap some q)))
            (omega arith))
  ]

  add_node-eq-some :
      (max_nodes : ℕ) (type : NodeType) (name : String) (fn : Option (TickFn C)) (parent : Option ℕ)
      (t t' : BehaviorTree C) {index : Option ℕ}
      → add_node max_nodes type name fn parent t ≡ some (index, t')
      → (t'.nodes ≡ t.nodes)
        ⊎ (link (t.nodes ++ (new_node type name fn parent ∷ [])) parent (length t.nodes)
            ≡ some t'.nodes)
  unfolding add_node
  add_node-eq-some max_nodes type name fn parent t t' e = ground arith

  -- If every child comes behind its parent, `AddNode` keeps it so where it returns, unless the new node is given its own index as its
  -- parent.
  pub add_node-IsOrdered :
      (max_nodes : ℕ) (type : NodeType) (name : String) (fn : Option (TickFn C)) (parent : Option ℕ)
      (t t' : BehaviorTree C) {index : Option ℕ}
      → IsOrdered t.nodes
      → parent ≢ some (length t.nodes)
      → add_node max_nodes type name fn parent t ≡ some (index, t')
      → IsOrdered t'.nodes
  add_node-IsOrdered max_nodes type name fn parent t t' o ne e =
      elim (add_node-eq-some max_nodes type name fn parent t t' e) [
        | inl same ↦ subst (λ l. IsOrdered l) (sym same) o
        | inr linked ↦
            link-IsOrdered _ parent (length t.nodes)
              (append-IsOrdered t.nodes o (new_node type name fn parent) refl)
              (omega (arith, length-append t.nodes (new_node type name fn parent ∷ []))) ne linked
      ]
