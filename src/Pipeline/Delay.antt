-- ===== src/Pipeline/Delay.antt =====
-- Each lane of a pipeline is a delay line of the pipeline's depth.
use bzsim.Base.{
  ℕ, ◌+◌, ◌<◌, ◌≡◌, refl, ap, ap₂, ◌∙◌, Option, none, List, [], ◌∷◌, ◌++◌, map, length, take,
  replicate, length-replicate, append_assoc, arith,
}
use bzsim.Pipeline.{PipelineFifo, init, step, run}
use bzsim.Pipeline.Circle.{Holds-replicate}
use bzsim.Pipeline.Step.{HasLane, step-HasLane}

module _ {T : Type 0} where
  run-HasLane :
      (r : PipelineFifo T) (lane : ℕ) (q : List (Option T)) (xs : List (ℕ → Option T))
      → HasLane r lane q
      → run r lane xs ≡ take (length xs) (q ++ map (λ vals. vals lane) xs)
  unfolding run
  run-HasLane r lane q [] i = refl
  run-HasLane r lane [] (vals ∷ xs) i =
      let (e, j) = step-HasLane r vals lane [] (vals lane) [] i refl in
      ap₂ (λ (x : Option T) (l : List (Option T)). x ∷ l) e (run-HasLane (step r vals) lane [] xs j)
  run-HasLane r lane (y ∷ p) (vals ∷ xs) i =
      let (e, j) = step-HasLane r vals lane (y ∷ p) y (p ++ (vals lane ∷ [])) i refl in
      ap₂ (λ (x : Option T) (l : List (Option T)). x ∷ l) e
        (run-HasLane (step r vals) lane (p ++ (vals lane ∷ [])) xs j
          ∙ ap (take (length xs)) (append_assoc p (vals lane ∷ []) (map (λ vals. vals lane) xs)))

-- From the constructor, what is read from a lane after each step is what was written into it
-- `depth` steps before, and nothing in the first `depth` steps, whatever the other lanes hold.
pub run-lane :
    {T : Type 0} (lanes depth lane : ℕ) (xs : List (ℕ → Option T))
    → lane < lanes
    → run (init lanes depth) lane xs
      ≡ take (length xs) (replicate depth none ++ map (λ vals. vals lane) xs)
unfolding init
run-lane {T} lanes depth lane xs h =
    run-HasLane (init lanes depth) lane (replicate depth none) xs (record {
      within = h;
      full = length-replicate {A = Option T} depth none;
      shape = omega arith;
      at = omega arith;
      holds = Holds-replicate T (depth + 1) 1 depth;
    })
