-- ===== src/Domain/OnchainTx/Examples.antt =====
-- An onchain tx that is confirmed.
use arkd.Base.{List, [], ◌∷◌}
use arkd.Base.Int.{pos}
use arkd.Domain.OnchainTx.{Call, broadcasts, confirms, run, new_onchain_tx}
use arkd.Domain.OnchainTx.Laws.{LifeInv, run-LifeInv}

abbrev to_the_end : List Call
to_the_end = broadcasts "t" "x" ("a:0" ∷ "a:0" ∷ []) (pos 1) ∷ confirms (pos 2) 7 ∷ []

run-LifeInv_example : LifeInv (run new_onchain_tx to_the_end)
run-LifeInv_example = run-LifeInv to_the_end
