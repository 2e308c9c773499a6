-- ===== src/Breaker/Ladder.antt =====
-- The ladder of probes that a run of failures climbs (services/edge-collector/src/breaker/breaker.ts).
use native.Mathlib.Numerals.{add-one}
use native.Mathlib.Nat.{pow-suc}
use fieldstream.Common.{
  ℕ, zero, suc, ◌+◌, ◌*◌, ◌^◌, ◌≤◌, min, ◌≡◌, ◌||◌, List, [], ◌∷◌, ap, ◌∙◌, arith, ltb, leb,
  if◌then◌else◌,
}
use fieldstream.Breaker.{
  Breaker, closed, opened, half_open, closed_breaker, threshold, first_probe_ms, max_probe_ms,
  breaker_allows, breaker_view, record_success, record_failure,
}

-- The answers of a source, in order: a failure or a success with its time.
pub data Answer : Type 0 where
  failed answered : ℕ → Answer

abbrev pub after : Breaker → Answer → Breaker
after b (failed now) = record_failure b now
after b (answered now) = record_success

abbrev pub after_all : Breaker → List Answer → Breaker
after_all b [] = b
after_all b (a ∷ as') = after_all (after b a) as'

-- The delay that the ladder gives after a number of failures in a row.
abbrev pub ladder : ℕ → ℕ
ladder zero = 0
ladder (suc zero) = 0
ladder (suc (suc k)) = min (first_probe_ms * 2 ^ k) max_probe_ms

-- How many failures in a row the answers end with, after `k` earlier ones.
abbrev pub trailing : ℕ → List Answer → ℕ
trailing k [] = k
trailing k (failed _ ∷ as') = trailing (k + 1) as'
trailing k (answered _ ∷ as') = trailing 0 as'

-- Position on the ladder after `k` failures in a row.
pub record OnLadder (k : ℕ) (b : Breaker) : Type 0 where
  pub counted : b.failures ≡ k
  pub opens : b.is_open ≡ leb threshold k
  pub delay : b.probe_delay_ms ≡ ladder k

double_cap : (x : ℕ) → min (min x max_probe_ms * 2) max_probe_ms ≡ min (x * 2) max_probe_ms
double_cap x = omega arith

doubling : (k : ℕ) → min (ladder (suc (suc k)) * 2) max_probe_ms ≡ ladder (suc (suc (suc k)))
doubling k =
    double_cap (first_probe_ms * 2 ^ k) ∙ ap (λ x. min x max_probe_ms) (omega (arith, pow-suc 2 k))

double_ladder : (k : ℕ) → 2 ≤ k → min (ladder k * 2) max_probe_ms ≡ ladder (k + 1)
double_ladder zero h = absurd (omega arith)
double_ladder (suc zero) h = absurd (omega arith)
double_ladder (suc (suc k)) h = rw (add-one (suc (suc k))) (doubling k)

record_failure-OnLadder :
    (k : ℕ) (b : Breaker) (now : ℕ) → OnLadder k b → OnLadder (k + 1) (record_failure b now)
unfolding record_failure
record_failure-OnLadder zero b now h = ground arith
record_failure-OnLadder (suc zero) b now h = ground arith
record_failure-OnLadder (suc (suc k)) b now h = ground (arith, double_ladder (suc (suc k)))

after_all-OnLadder :
    (k : ℕ) (b : Breaker) (answers : List Answer)
    → OnLadder k b
    → OnLadder (trailing k answers) (after_all b answers)
unfolding record_success
after_all-OnLadder k b [] h = h
after_all-OnLadder k b (failed now ∷ rest) h =
    after_all-OnLadder (k + 1) (record_failure b now) rest (record_failure-OnLadder k b now h)
after_all-OnLadder k b (answered now ∷ rest) h = after_all-OnLadder 0 record_success rest success
  where
    success : OnLadder 0 record_success
    success = ground arith

-- After any answers of a source whose breaker began closed: the counted failures are the failures
-- that the answers end with, the breaker is open exactly when there are two or more of them, and its
-- delay is the step of the ladder for their number, 30 s doubled with each failed probe up to 300 s.
pub after_all-ladder :
    (answers : List Answer)
    → let b = after_all closed_breaker answers in
      let k = trailing 0 answers in
      (b.failures ≡ k) × (b.is_open ≡ leb threshold k) × (b.probe_delay_ms ≡ ladder k)
after_all-ladder answers =
    let at = after_all-OnLadder 0 closed_breaker answers (ground arith) in
    (at.counted, at.opens, at.delay)

view_of_failure :
    (k : ℕ) (b : Breaker) (now t : ℕ)
    → OnLadder k b
    → let c = record_failure b now in
      (breaker_view c t ≡ (
        if ltb (k + 1) threshold
        then closed
        else if leb (now + ladder (k + 1)) t
        then half_open
        else opened))
      × (breaker_allows c t ≡ (ltb (k + 1) threshold || leb (now + ladder (k + 1)) t))
unfolding breaker_view breaker_allows record_failure
view_of_failure zero b now t h = ground arith
view_of_failure (suc zero) b now t h = ground arith
view_of_failure (suc (suc k)) b now t h = ground (arith, double_ladder (suc (suc k)))

-- After any answers and one more failure at `now`, with `k` failures in a row in all: below the
-- threshold the breaker is closed at every time, and from the threshold on it is open before the
-- time `now + ladder k` and half-open from then on, so the source is asked then and not before.
pub breaker_view-after_failure :
    (answers : List Answer) (now t : ℕ)
    → let b = after (after_all closed_breaker answers) (failed now) in
      let k = trailing 0 answers + 1 in
      (breaker_view b t ≡ (
        if ltb k threshold then closed else if leb (now + ladder k) t then half_open else opened))
      × (breaker_allows b t ≡ (ltb k threshold || leb (now + ladder k) t))
breaker_view-after_failure answers now t =
    view_of_failure (trailing 0 answers) (after_all closed_breaker answers) now t
      (after_all-OnLadder 0 closed_breaker answers (ground arith))
