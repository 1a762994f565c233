-- ===== src/Stackish/Destroy.antt =====
-- `Node_destroy` of src/stackish/node.c, by the traversal of src/stackish/node_algo.h.
use utu.Prelude.{
  ℕ, suc, ◌+◌, ◌≤◌, ◌<◌, ◌≡◌, refl, ◌∙◌, false, Option, none, some, ltb, if◌then◌else◌, ◌>>=◌, ◌>>◌,
  require, max, arith, inl, inr, lt→ltb, ltb→lt, Bool-cases,
}
use utu.Stackish.Node.{Bytes, Nodes, node, nil, cons, group}

-- `MAX_TREE_DEEP`
abbrev pub max_tree_deep : ℕ
max_tree_deep = 128

-- `BIN_TREE_MAP_ON_ELEMENTS_POSTORDER` with `sibling` on the left and `child` on the right, from the
-- place `pathi` of the path on. The result is how many nodes were freed; `none` is the failed
-- assertion that the tree is not too deep.
unfoldable pub free_nodes : ℕ → Nodes → Option ℕ
free_nodes pathi nil = some 0
free_nodes pathi (cons (node name v kids) rest) = do
  require (ltb (pathi + 1) max_tree_deep)
  left ← free_nodes (pathi + 1) rest
  right ← free_nodes (pathi + 1) kids
  some (left + right + 1)

-- `Node_destroy`
unfoldable pub node_destroy : Nodes → Option ℕ
unfolding free_nodes
node_destroy root = free_nodes 0 root

-- The longest path of steps to a sibling or to a child.
abbrev pub depth : Nodes → ℕ
depth nil = 0
depth (cons (node name v kids) rest) = suc (max (depth rest) (depth kids))

abbrev pub count : Nodes → ℕ
count nil = 0
count (cons (node name v kids) rest) = count rest + count kids + 1

ltb-no : (m n : ℕ) → n ≤ m → ltb m n ≡ false
ltb-no m n h = ground arith

free_nodes-shallow : (p : ℕ) (ns : Nodes) → p + depth ns < 128 → free_nodes p ns ≡ some (count ns)
unfolding free_nodes
free_nodes-shallow p nil h = refl
free_nodes-shallow p (cons (node name v kids) rest) h =
    rw
      (
        lt→ltb (p + 1) 128 (omega arith),
        free_nodes-shallow (p + 1) rest (omega arith),
        free_nodes-shallow (p + 1) kids (omega arith),
      )
      refl

free_nodes-deep : (p : ℕ) (ns : Nodes) → p < 128 → 128 ≤ p + depth ns → free_nodes p ns ≡ none
unfolding free_nodes
free_nodes-deep p nil l h = absurd (omega arith)
free_nodes-deep p (cons (node name v kids) rest) l h = elim (Bool-cases (ltb (p + 1) 128)) [
  | inr e ↦ rw e refl
  | inl e ↦ elim (Bool-cases (ltb (p + 1 + depth rest) 128)) [
    | inr f ↦ rw (e, free_nodes-deep (p + 1) rest (ground arith) (ground arith)) refl
    | inl f ↦
        rw
          (
            e,
            free_nodes-shallow (p + 1) rest (ground arith),
            free_nodes-deep (p + 1) kids (ground arith) (ground arith),
          )
          refl
  ]
]

-- `Node_destroy` frees every node once, unless there is a path of 128 nodes or more by siblings and
-- children: then it stops the process.
pub node_destroy_lem :
    (root : Nodes)
    → node_destroy root ≡ (if ltb (depth root) max_tree_deep then some (count root) else none)
unfolding node_destroy
node_destroy_lem root = elim (Bool-cases (ltb (depth root) 128)) [
  | inl e ↦ rw e (free_nodes-shallow 0 root (omega (arith, ltb→lt (depth root) 128 e)))
  | inr e ↦ rw e (free_nodes-deep 0 root (omega arith) (ground arith))
]

-- The number of nodes in a list of siblings.
abbrev pub siblings : Nodes → ℕ
siblings nil = 0
siblings (cons n rest) = suc (siblings rest)

siblings-depth : (ns : Nodes) → siblings ns ≤ depth ns
siblings-depth nil = omega arith
siblings-depth (cons (node name v kids) rest) = omega (arith, siblings-depth rest)

-- Freeing a group with 127 children or more stops the process.
node_destroy-wide :
    (name : Option Bytes) (kids : Nodes)
    → 127 ≤ siblings kids
    → node_destroy (cons (node name group kids) nil) ≡ none
node_destroy-wide name kids h =
    node_destroy_lem (cons (node name group kids) nil)
    ∙ rw (ltb-no (depth (cons (node name group kids) nil)) 128 (omega (arith, siblings-depth kids)))
        refl
