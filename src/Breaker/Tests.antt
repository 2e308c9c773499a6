-- ===== src/Breaker/Tests.antt =====
-- Runs of the breaker on concrete answers.
use fieldstream.Common.{◌≡◌, ◌||◌, true, List, [], ◌∷◌, ltb, leb, ◌+◌}
use fieldstream.Breaker.{opened, closed_breaker, threshold, breaker_allows, breaker_view}
use fieldstream.Breaker.Ladder.{
  Answer, failed, answered, after, after_all, ladder, after_all-ladder, breaker_view-after_failure,
}

abbrev three_failures : List Answer
three_failures = answered 5 ∷ failed 10 ∷ failed 20 ∷ failed 30020 ∷ []

after_all-ladder_example :
    let b = after_all closed_breaker three_failures in
    (b.failures ≡ 3) × (b.is_open ≡ true) × (b.probe_delay_ms ≡ 60000)
after_all-ladder_example = after_all-ladder three_failures

breaker_view-after_failure_example :
    let b = after (after_all closed_breaker three_failures) (failed 90020) in
    (breaker_view b 210019 ≡ opened)
    × (breaker_allows b 210019 ≡ (ltb 4 threshold || leb (90020 + ladder 4) 210019))
breaker_view-after_failure_example = breaker_view-after_failure three_failures 90020 210019
