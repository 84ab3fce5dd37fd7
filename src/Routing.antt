-- ===== src/Routing.antt =====
-- Dimension-order routing on the mesh: `dor_next_mesh` of booksim2/src/routefunc.cpp, and the
-- neighbours of a node in networks/kncube.cpp. A node's number has a digit to the base `k` for each
-- of the `n` dimensions, the lowest for dimension 0.
pub mod Nearer
pub mod Symmetric
mod Tests
use bzsim.Base.{ℕ, zero, suc, ◌+◌, ◌-◌, ◌*◌, ◌/◌, ◌%◌, Bool, true, false, ltb, ◌==◌, if◌then◌else◌}

-- `powi`.
unfoldable pub powi : ℕ → ℕ → ℕ
powi x zero = 1
powi x (suc y) = powi x y * x

-- The loop of the ascending order: the first dimension in which the nodes differ, or the last, and
-- the numbers that are left of them.
unfoldable pub dim_left : ℕ → ℕ → ℕ → ℕ → ℕ → ℕ × ℕ × ℕ
dim_left zero k dim cur dest = (dim, cur, dest)
dim_left (suc n) k dim cur dest =
    let rest = dim_left n k (dim + 1) (cur / k) (dest / k) in
    if cur % k == dest % k then rest else (dim, cur, dest)

-- The port in that dimension.
abbrev pub port : ℕ → ℕ × ℕ × ℕ → ℕ
port k (dim, cur, dest) = if ltb (cur % k) (dest % k) then 2 * dim else 2 * dim + 1

-- The loop of the descending order, from dimension `dim` on.
unfoldable pub dim_left_descending : ℕ → ℕ → ℕ → ℕ → ℕ → ℕ × ℕ × ℕ
dim_left_descending zero k nodes cur dest = (zero, cur, dest)
dim_left_descending (suc dim) k nodes cur dest =
    let rest = dim_left_descending dim k nodes (cur * k % nodes) (dest * k % nodes) in
    if cur * k / nodes == dest * k / nodes then rest else (suc dim, cur, dest)

abbrev pub port_descending : ℕ → ℕ → ℕ × ℕ × ℕ → ℕ
port_descending k nodes (dim, cur, dest) =
    if ltb (cur * k / nodes) (dest * k / nodes) then 2 * dim else 2 * dim + 1

-- `dor_next_mesh`, with gK, gN and gNodes.
unfoldable pub dor_next_mesh : ℕ → ℕ → ℕ → ℕ → ℕ → Bool → ℕ
dor_next_mesh k n nodes cur dest descending =
    if cur == dest
    then 2 * n
    else (if descending
        then port_descending k nodes (dim_left_descending (n - 1) k nodes cur dest)
        else port k (dim_left (n - 1) k 0 cur dest))

-- `_LeftChannel` and `_RightChannel`.
unfoldable pub left_channel : ℕ → ℕ → ℕ → ℕ
left_channel n node dim = 2 * n * node + (2 * dim + 1)

unfoldable pub right_channel : ℕ → ℕ → ℕ → ℕ
right_channel n node dim = 2 * n * node + 2 * dim

-- `_LeftNode` and `_RightNode`.
unfoldable pub left_node : ℕ → ℕ → ℕ → ℕ
left_node k node dim =
    if node / powi k dim % k == 0 then node + (k - 1) * powi k dim else node - powi k dim

unfoldable pub right_node : ℕ → ℕ → ℕ → ℕ
right_node k node dim =
    if node / powi k dim % k == k - 1 then node - (k - 1) * powi k dim else node + powi k dim

-- The node behind an output of the router: `_BuildNet` adds for each dimension the right channel,
-- then the left one.
unfoldable pub next_node : ℕ → ℕ → ℕ → ℕ
next_node k node out_port =
    if out_port % 2 == 0 then right_node k node (out_port / 2) else left_node k node (out_port / 2)
