-- ===== src/Allocator/Tests.antt =====
-- Runs of the allocators.
use bzsim.Base.{ℕ, ◌≡◌, refl, pos, negsuc, false, true, update, [], ◌∷◌, ok, arith}
use bzsim.Allocator
use bzsim.Allocator.{Request, no_request}
use bzsim.Allocator.Wavefront
use bzsim.Allocator.Wavefront.{Wavefront}
use bzsim.Allocator.Wavefront.Matching.{IsMatching}
use bzsim.Allocator.Wavefront.Round.{IsReady, allocate-IsMatching}
use bzsim.Allocator.Wavefront.Add.{add_request-IsReady, init-IsReady}

abbrev asked : ℕ → Request
asked pri = record { label = pos 1; in_pri = pos pri; out_pri = pos 0 }

-- Two inputs and outputs; input 0 has asked for output 1.
abbrev once : Wavefront
once = record {
  dense = record {
    base = record {
      inputs = 2;
      outputs = 2;
      dirty = true;
      inmatch = λ _. negsuc 0;
      outmatch = λ _. negsuc 0;
    };
    request = update (λ i j. no_request) 0 (update (λ j. no_request) 1 (asked 0));
  };
  last_in = pos 0;
  last_out = pos 1;
  priorities = (pos 0, pos 0) ∷ [];
  skip_diags = false;
  square = 2;
  pri = 0;
  num_requests = 1;
}

once_added : Wavefront.add_request (Wavefront.init 2 2 false) 0 1 (asked 0) ≡ ok once
unfolding Wavefront.add_request Wavefront.init Allocator.init_dense Allocator.init
    Allocator.add_request Allocator.note_request Wavefront.insert
once_added = refl

once-IsReady : IsReady once
once-IsReady =
    (add_request-IsReady (Wavefront.init 2 2 false) once 0 1 (asked 0) (init-IsReady 2 2 false)
      once_added).0

-- Input 1 asks for the same output, with a higher priority.
abbrev twice : Wavefront
twice = record once {
  dense = record once.dense {
    request = update once.request 1 (update (once.request 1) 1 (asked 3));
  };
  last_in = pos 1;
  priorities = (pos 0, pos 3) ∷ (pos 0, pos 0) ∷ [];
  num_requests = 2;
}

twice_added : Wavefront.add_request once 1 1 (asked 3) ≡ ok twice
unfolding Wavefront.add_request Allocator.add_request Allocator.note_request Wavefront.insert
twice_added = refl

twice-IsReady : IsReady twice
twice-IsReady = (add_request-IsReady once twice 1 1 (asked 3) once-IsReady twice_added).0

allocate-IsMatching_example :
    (w : Wavefront) × (Wavefront.allocate twice ≡ ok w)
    × IsMatching twice w.inmatch w.outmatch
    × ((i : ℕ) × (j : ℕ) × (w.inmatch i ≡ pos j))
    × (w.num_requests ≡ 0)
allocate-IsMatching_example = allocate-IsMatching twice twice-IsReady (omega arith)
