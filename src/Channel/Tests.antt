-- ===== src/Channel/Tests.antt =====
-- A channel with a latency of three cycles.
use bzsim.Base.{
  ℕ, ◌≡◌, refl, Option, none, some, List, [], ◌∷◌, ◌++◌, length, take, replicate, pos, ok, ◌>>=◌,
}
use bzsim.Channel.{init, set_latency, run}
use bzsim.Channel.Delay.{run-delay}

abbrev sent : List (Option ℕ)
sent = some 5 ∷ none ∷ some 6 ∷ some 7 ∷ none ∷ []

run-delay_example :
    (set_latency init (pos 3) >>= λ c. run c 10 sent)
    ≡ ok (take (length sent) (replicate 2 none ++ sent))
run-delay_example = run-delay 2 10 sent

arrives :
    (set_latency init (pos 3) >>= λ c. run c 10 sent)
    ≡ ok (none ∷ none ∷ some 5 ∷ none ∷ some 6 ∷ [])
unfolding run init set_latency bzsim.Channel.cycle bzsim.Channel.write_outputs bzsim.Channel.front
    bzsim.Channel.read_inputs bzsim.Channel.send bzsim.Channel.receive
arrives = refl
