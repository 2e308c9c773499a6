-- ===== src/ModeSpans/Tests.antt =====
-- Runs of packages/domain/src/mode-spans.ts on concrete changes.
use fieldstream.Common.{sort_by, insert_by, ◌≡◌, refl, arith, none, some, List, [], ◌∷◌, Any}
use fieldstream.Contracts.{cooling, defrost, off}
use fieldstream.ModeSpans.{ModeChange, build_mode_spans, spans_from, sorted_changes, readable}
use fieldstream.ModeSpans.Coverage.{
  Tiles, Shows, mode_at, window, build_mode_spans-Tiles, build_mode_spans-Shows,
}

abbrev changes : List ModeChange
changes =
    record { at = some 60; mode = cooling }
    ∷ record { at = none; mode = off }
    ∷ record { at = some 5; mode = off }
    ∷ record { at = some 40; mode = defrost }
    ∷ []

build_mode_spans-Tiles_example : Tiles 10 100 (build_mode_spans (window cooling changes 10 100))
build_mode_spans-Tiles_example = build_mode_spans-Tiles cooling changes 10 100 (omega arith)

build_mode_spans-Shows_example :
    Any
      (Shows 50 (mode_at cooling (sorted_changes changes) 50))
      (build_mode_spans (window cooling changes 10 100))
build_mode_spans-Shows_example =
    build_mode_spans-Shows cooling changes 10 100 50 (omega arith) (omega arith)

three_spans :
    build_mode_spans (window cooling changes 10 100)
    ≡ record { mode = off; from = 10; to = 40 }
      ∷ record { mode = defrost; from = 40; to = 60 }
      ∷ record { mode = cooling; from = 60; to = 100 }
      ∷ []
unfolding build_mode_spans spans_from sorted_changes readable sort_by insert_by
three_spans = refl
