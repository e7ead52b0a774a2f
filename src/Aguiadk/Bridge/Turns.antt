-- ===== src/Aguiadk/Bridge/Turns.antt =====
-- MaxIterations bounds a run, also if the agent never ends.
use adk_go_pkg.Base.{ℕ, suc, ◌+◌, ◌≤◌, ◌<◌, List, [], ◌∷◌, ◌++◌, if◌then◌else◌, ◌≡◌, refl, arith}
use adk_go_pkg.Base.Int.{pos}
use adk_go_pkg.Aguiadk.Translator.{State, Config as TranslatorConfig}
use adk_go_pkg.Aguiadk.Translator.Run.{translate}
use adk_go_pkg.Aguiadk.Bridge.{BridgeEnv, Item, failed, skipped, yielded}
use adk_go_pkg.Aguiadk.Bridge.Loop.{run_loop, exceeds, ends_turn}

module _ (B : BridgeEnv) (cfg : TranslatorConfig B.env) (m : ℕ) where
  -- How many model turns end in a sequence.
  unfoldable pub turns_of : List (Item B) → ℕ
  turns_of [] = 0
  turns_of (yielded ev ∷ items) = if ends_turn B ev then suc (turns_of items) else turns_of items
  turns_of (_ ∷ items) = turns_of items

  run_loop_stops_from :
      (items rest : List (Item B)) (turns : ℕ) (t : State B.env)
      → 0 < m
      → turns ≤ m
      → m < turns + turns_of items
      → run_loop B cfg (pos m) (items ++ rest) turns t ≡ run_loop B cfg (pos m) items turns t
  unfolding run_loop turns_of exceeds
  run_loop_stops_from [] rest turns t h below more = absurd (omega arith)
  run_loop_stops_from (failed e ∷ items) rest turns t h below more = refl
  run_loop_stops_from (skipped ∷ items) rest turns t h below more =
      run_loop_stops_from items rest turns t h below more
  run_loop_stops_from (yielded ev ∷ items) rest turns t h below more =
      let t' = translate B.env cfg ev.event t in
      ground (
        arith,
        run_loop_stops_from items rest turns t' h,
        run_loop_stops_from items rest (suc turns) t' h,
      )

  -- With MaxIterations set to a positive number, a run reads no event of the agent behind those in
  -- which more than that number of model turns end: however the agent goes on, the run is over.
  pub run_loop_stops :
      (items rest : List (Item B)) (t : State B.env)
      → 0 < m
      → m < turns_of items
      → run_loop B cfg (pos m) (items ++ rest) 0 t ≡ run_loop B cfg (pos m) items 0 t
  run_loop_stops items rest t h more =
      run_loop_stops_from items rest 0 t h (omega arith) (omega arith)
