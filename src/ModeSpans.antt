-- ===== src/ModeSpans.antt =====
-- packages/domain/src/mode-spans.ts: the stretches of a device's modes over a window. A timestamp is
-- kept as the instant that `Date.parse` reads of it, if it reads one.
pub mod Coverage
mod Tests
use fieldstream.Common.{
  sort_by, ℕ, Bool, true, false, Option, none, some, List, [], ◌∷◌, leb, if◌then◌else◌,
}
use fieldstream.Contracts.{DeviceMode, mode_eq}

-- A change as the caller has it.
pub record ModeChange : Type 0 where
  pub at : Option ℕ
  pub mode : DeviceMode

pub record ModeSpansInput : Type 0 where
  pub from : Option ℕ
  pub to : Option ℕ
  pub initial_mode : DeviceMode
  pub changes : List ModeChange

pub record ModeSpan : Type 0 where
  pub mode : DeviceMode
  pub from : ℕ
  pub to : ℕ

-- A change with a readable time.
pub record Change : Type 0 where
  pub at_ms : ℕ
  pub mode : DeviceMode

unfoldable pub readable : List ModeChange → List Change
readable [] = []
readable (c ∷ cs) =
    let rest = readable cs in
    elim c.at [ none ↦ rest | some at ↦ record { at_ms = at; mode = c.mode } ∷ rest ]

abbrev pub not_after : Change → Change → Bool
not_after left right = leb left.at_ms right.at_ms

unfoldable pub sorted_changes : List ModeChange → List Change
sorted_changes changes = sort_by not_after (readable changes)

-- The loop over the changes and the last span, from what `mode` and `startedMs` hold.
unfoldable pub spans_from : ℕ → ℕ → DeviceMode → ℕ → List Change → List ModeSpan
spans_from from to mode started [] = record { mode = mode; from = started; to = to } ∷ []
spans_from from to mode started (c ∷ cs) = elim (leb c.at_ms from) [
  | true ↦ spans_from from to c.mode started cs
  | false ↦ elim (leb to c.at_ms) [
    | true ↦ record { mode = mode; from = started; to = to } ∷ []
    | false ↦ elim (mode_eq c.mode mode) [
      | true ↦ spans_from from to mode started cs
      | false ↦
          record { mode = mode; from = started; to = c.at_ms }
          ∷ spans_from from to c.mode c.at_ms cs
    ]
  ]
]

unfoldable pub build_mode_spans : ModeSpansInput → List ModeSpan
unfolding sorted_changes spans_from
build_mode_spans input = elim input.from [
  | none ↦ []
  | some from ↦ elim input.to [
    | none ↦ []
    | some to ↦
        if leb to from
        then []
        else spans_from from to input.initial_mode from (sorted_changes input.changes)
  ]
]
