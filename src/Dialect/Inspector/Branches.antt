-- ===== src/Dialect/Inspector/Branches.antt =====
-- Which patterns have a union.
use text.Mathlib.TextEquality.{eq_iff}
use taskweave.Base.{
  String, Bool, true, false, ◌||◌, Option, none, some, List, [], ◌∷◌, ◌++◌, ◌≡◌, refl, arith, subst,
  sym, ◌↔◌, ◌⊎◌, inl, inr,
}
use taskweave.Dialect.Inspector.{
  Object, sub_pattern, list, tuple, plain, Objects, end, item, Visit, Parsed, walk_inner,
  walk_nodes, walk_argument, walk_elements, walk, any_branch, has_union,
}

or_iff : (a b : Bool) (P Q : Type 0) → (a ≡ true) ↔ P → (b ≡ true) ↔ Q → ((a || b) ≡ true) ↔ (P ⊎ Q)
or_iff true b P Q p q = (λ e. inl (p.0 refl), λ h. refl)
or_iff false b P Q (_, p) (q, r) =
    (λ e. inr (q e), λ h. elim h [ inl x ↦ absurd (no x) | inr y ↦ r y ])
  where
    no : P → ⊥
    no x = ground (arith, p x)

module _ (show : Object → String) where
  -- There is a BRANCH node in the tree: the node itself, one in a list of nodes, or one below the
  -- argument of a node, also in the SubPatterns and lists that a tuple for an argument holds.
  unfoldable mutual
    pub HasBranch : Object → Type 0
    HasBranch (sub_pattern nodes) = SomeBranch nodes
    HasBranch (list nodes) = SomeBranch nodes
    HasBranch (tuple end) = ⊥
    HasBranch (tuple (item op end)) = ⊥
    HasBranch (tuple (item op (item av rest))) = (show op ≡ "BRANCH") ⊎ BranchBelow av
    HasBranch (plain s) = ⊥

    pub SomeBranch : Objects → Type 0
    SomeBranch end = ⊥
    SomeBranch (item node nodes) = HasBranch node ⊎ SomeBranch nodes

    pub BranchBelow : Object → Type 0
    BranchBelow (sub_pattern nodes) = SomeBranch nodes
    BranchBelow (list nodes) = SomeBranch nodes
    BranchBelow (tuple es) = SomeNested es
    BranchBelow (plain s) = ⊥

    pub SomeNested : Objects → Type 0
    SomeNested end = ⊥
    SomeNested (item (sub_pattern nodes) es) = SomeBranch nodes ⊎ SomeNested es
    SomeNested (item (list nodes) es) = SomeBranch nodes ⊎ SomeNested es
    SomeNested (item (tuple nodes) es) = SomeNested es
    SomeNested (item (plain s) es) = SomeNested es

  any_branch-append :
      (xs ys : List Visit) → any_branch show (xs ++ ys) ≡ (any_branch show xs || any_branch show ys)
  any_branch-append [] ys = refl
  any_branch-append (x ∷ xs) ys = ground (arith, any_branch-append xs ys)

  any_branch-append_iff :
      (xs ys : List Visit) (P Q : Type 0)
      → (any_branch show xs ≡ true) ↔ P
      → (any_branch show ys ≡ true) ↔ Q
      → (any_branch show (xs ++ ys) ≡ true) ↔ (P ⊎ Q)
  any_branch-append_iff xs ys P Q p q =
      subst (λ b. (b ≡ true) ↔ (P ⊎ Q)) (sym (any_branch-append xs ys)) (or_iff _ _ P Q p q)

  mutual
    unfolding walk_inner HasBranch

    walk_inner-finds :
        (node : Object) (parent : Option String)
        → (any_branch show (walk_inner show node parent) ≡ true) ↔ HasBranch node
    walk_inner-finds (sub_pattern nodes) parent = walk_nodes-finds nodes parent
    walk_inner-finds (list nodes) parent = walk_nodes-finds nodes parent
    walk_inner-finds (tuple end) parent = ground arith
    walk_inner-finds (tuple (item op end)) parent = ground arith
    walk_inner-finds (tuple (item op (item av rest))) parent =
        ground (arith, walk_argument-finds av (show op), eq_iff (show op) "BRANCH")
    walk_inner-finds (plain s) parent = ground arith

    walk_nodes-finds :
        (nodes : Objects) (parent : Option String)
        → (any_branch show (walk_nodes show nodes parent) ≡ true) ↔ SomeBranch nodes
    walk_nodes-finds end parent = ground arith
    walk_nodes-finds (item node nodes) parent =
        any_branch-append_iff (walk_inner show node parent) (walk_nodes show nodes parent) _ _
          (walk_inner-finds node parent) (walk_nodes-finds nodes parent)

    walk_argument-finds :
        (av : Object) (op : String)
        → (any_branch show (walk_argument show av op) ≡ true) ↔ BranchBelow av
    walk_argument-finds (sub_pattern nodes) op = walk_nodes-finds nodes (some op)
    walk_argument-finds (list nodes) op = walk_nodes-finds nodes (some op)
    walk_argument-finds (tuple es) op = walk_elements-finds es op
    walk_argument-finds (plain s) op = ground arith

    walk_elements-finds :
        (es : Objects) (op : String)
        → (any_branch show (walk_elements show es op) ≡ true) ↔ SomeNested es
    walk_elements-finds end op = ground arith
    walk_elements-finds (item (sub_pattern nodes) es) op =
        any_branch-append_iff (walk_nodes show nodes (some op)) (walk_elements show es op) _ _
          (walk_nodes-finds nodes (some op)) (walk_elements-finds es op)
    walk_elements-finds (item (list nodes) es) op =
        any_branch-append_iff (walk_nodes show nodes (some op)) (walk_elements show es op) _ _
          (walk_nodes-finds nodes (some op)) (walk_elements-finds es op)
    walk_elements-finds (item (tuple nodes) es) op = walk_elements-finds es op
    walk_elements-finds (item (plain s) es) op = walk_elements-finds es op

  -- A pattern is reported to have a union just where its tree has a BRANCH node: the root or a node in
  -- its lists, or one below the argument of a node, which is a list, a SubPattern, or a tuple that
  -- holds such.
  pub has_union_iff : (parsed : Parsed) → (has_union show parsed ≡ true) ↔ HasBranch (parsed.tree)
  unfolding has_union walk
  has_union_iff parsed = walk_inner-finds parsed.tree none
