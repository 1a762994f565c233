-- ===== src/Stackish/Node.antt =====
-- The tree of src/stackish/node.h.
use utu.Prelude.{ℕ, List, Option}

abbrev pub Bytes : Type 0
Bytes = List ℕ

-- `NodeType` with the union. A string or blob may be the null pointer, and a `double` is its bit
-- pattern.
pub data Value : Type 0 where
  number : ℕ → Value
  string blob : Option Bytes → Value
  floating : ℕ → Value
  group : Value

-- `Node`: its name or null, its value, and its children from `child` on by `sibling`, which is the
-- last one added first.
mutual
  pub data Node : Type 0 where
    node : Option Bytes → Value → Nodes → Node

  pub data Nodes : Type 0 where
    nil : Nodes
    cons : Node → Nodes → Nodes

-- What the C library does with the text of a `double`: its bit pattern with the number of bytes
-- read, and its text by `%f`.
pub record Floats : Type 0 where
  pub strtod : Bytes → ℕ × ℕ
  pub print_float : ℕ → Bytes
