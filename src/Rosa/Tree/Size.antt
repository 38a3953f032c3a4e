-- ===== src/Rosa/Tree/Size.antt =====
-- The size and the height of an element tree of crates/collecta-server/src/openrosa/instance.rs.
use Prim.Native.Nat.{max}
use collecta.Prelude.{ℕ, suc, ◌+◌}
use collecta.Rosa.Tree.{Node, Nodes, node, no_nodes, child}

unfoldable mutual
  pub size : Node → ℕ
  size (node name text attrs children) = suc (size_all children)

  pub size_all : Nodes → ℕ
  size_all no_nodes = 0
  size_all (child x xs) = size x + size_all xs

unfoldable mutual
  pub height : Node → ℕ
  height (node name text attrs children) = suc (height_all children)

  pub height_all : Nodes → ℕ
  height_all no_nodes = 0
  height_all (child x xs) = max (height x) (height_all xs)
