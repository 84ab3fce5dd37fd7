-- ===== src/Routing/Tests.antt =====
-- Runs of the routing function: the mesh of 4 x 4 nodes, from (1, 1) to (2, 3).
use bzsim.Base.{◌≡◌, refl, false, arith}
use bzsim.Routing.{powi, dor_next_mesh, left_node, right_node, dim_left}
use bzsim.Routing.Nearer.{hops, travel, travel-arrives}
use bzsim.Routing.Symmetric.{left_node-right_node}

first_port : dor_next_mesh 4 2 16 5 14 false ≡ 0
unfolding dor_next_mesh dim_left
first_port = refl

three_hops : hops 2 4 5 14 ≡ 3
unfolding hops
three_hops = refl

travel-arrives_example : travel (hops 2 4 5 14) 4 2 16 5 14 ≡ 14
unfolding powi
travel-arrives_example = travel-arrives 4 1 16 5 14 (omega arith) (omega arith) (omega arith)

-- Node 7 is at the right edge.
left_node-right_node_example : left_node 4 (right_node 4 7 0) 0 ≡ 7
left_node-right_node_example = left_node-right_node 4 (omega arith) 7 0
