-- ===== src/Persist/Examples.antt =====
-- Two jobs for one file, the newer one executed first: the older one is left out.
use Prim.Native.Nat.{ℕ, ◌≤◌}
use mathlib.Core.Path.{◌≡◌}
use mathlib.Core.Bool.{true, false}
use mathlib.Core.Option.{none}
use mathlib.Core.List.{List, [], ◌∷◌}
use mathlib.Core.Logic.{◌⊎◌}
use term_connect.Shared.Results.{ok}
use term_connect.Persist.Writer.{Job, new}
use term_connect.Persist.Latest.{Execution, run_all, OneSucceeds, Holds, run_all-Holds}

abbrev older : Job
older = record { render = ok (1 ∷ []); mode = 0; tag = 0; version = 1 }

abbrev newer : Job
newer = record { render = ok (2 ∷ []); mode = 0; tag = 0; version = 2 }

abbrev out_of_order : List Execution
out_of_order =
    record { by_caller = true; path = 5; job = newer; outcome = ok tt }
    ∷ record { by_caller = false; path = 5; job = older; outcome = ok tt }
    ∷ []

run_all-Holds_example :
    ((j : Job) (contents : List ℕ)
      → OneSucceeds 5 j contents out_of_order
      → j.version ≤ (run_all new out_of_order).applied 5)
    × ((((run_all new out_of_order).applied 5 ≡ 0) × ((run_all new out_of_order).files 5 ≡ none))
        ⊎ Holds (run_all new out_of_order) 5 out_of_order)
run_all-Holds_example = run_all-Holds out_of_order 5
