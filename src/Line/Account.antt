-- ===== src/Line/Account.antt =====
-- What one pass over a line of services/edge-collector/src/polling/line-worker.ts accounts for,
-- whatever the port answers.
use fieldstream.Common.{List, [], ◌∷◌}
use fieldstream.ReadPlan.{Collation}
use fieldstream.Line.{Line}
use fieldstream.Line.Pass.{Progress, waits, reports, throws, Wake, wake}

module _ (collate : Collation) where
  -- The pass goes on by the answers to its waits, in turn.
  unfoldable pub goes_on : Line × Progress → List Wake → Line × Progress
  unfolding wake
  goes_on r [] = r
  goes_on (l, waits w p) (answer ∷ answers) = goes_on (wake collate l p w answer) answers
  goes_on (l, reports report) (answer ∷ answers) = (l, reports report)
  goes_on (l, throws) (answer ∷ answers) = (l, throws)
