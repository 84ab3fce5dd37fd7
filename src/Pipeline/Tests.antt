-- ===== src/Pipeline/Tests.antt =====
-- A pipeline of two lanes and of depth two.
use bzsim.Base.{
  ℕ, ◌≡◌, refl, Option, none, some, List, [], ◌∷◌, ◌++◌, map, length, take, replicate, ◌==◌,
  if◌then◌else◌, arith,
}
use bzsim.Pipeline.{init, run}
use bzsim.Pipeline.Delay.{run-lane}

abbrev written : List (ℕ → Option ℕ)
written =
    (λ lane. if lane == 1 then some 7 else none)
    ∷ (λ lane. none)
    ∷ (λ lane. if lane == 1 then some 9 else some 8)
    ∷ (λ lane. none)
    ∷ []

run-lane_example :
    run (init 2 2) 1 written
    ≡ take (length written) (replicate 2 none ++ map (λ vals. vals 1) written)
run-lane_example = run-lane 2 2 1 written (omega arith)

lane_one : run (init 2 2) 1 written ≡ none ∷ none ∷ some 7 ∷ none ∷ []
unfolding run init bzsim.Pipeline.step bzsim.Pipeline.advance bzsim.Pipeline.write_lanes
    bzsim.Pipeline.write_some bzsim.Pipeline.write bzsim.Pipeline.write_all bzsim.Pipeline.read
lane_one = refl
