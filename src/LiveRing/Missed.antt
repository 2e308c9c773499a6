-- ===== src/LiveRing/Missed.antt =====
-- What a client that comes back to services/api-gateway/src/events/live-ring.ts is sent.
use mathlib.Core.Path.{subst}
use fieldstream.Common.{
  ℕ, zero, suc, ◌+◌, ◌-◌, ◌≤◌, ◌≡◌, refl, sym, ap, ◌∙◌, false, none, List, [], ◌∷◌, ◌++◌, arith,
  length, drop, keep, ltb, ◌==◌, leb, ◌&&◌, if◌then◌else◌, length-append, length-drop, drop-nil,
  drop-drop, drop-append,
}
use fieldstream.LiveRing.{
  LiveEventKind, EventId, LiveEvent, seen, unknown_epoch, too_old, Backfill, LiveRing, empty_ring,
  stamped, append, oldest_seq, newer, since, start_over,
}

-- One call of `append`.
pub record Appended (K D : Type 0) : Type 0 where
  pub kind : LiveEventKind
  pub keys : List K
  pub payload : D

-- The ring with all the events that were ever appended to it, oldest first.
pub record Log (K D : Type 0) : Type 0 where
  pub ring : LiveRing K D
  pub all : List (LiveEvent K D)

module _ {K D : Type 0} where
  unfoldable pub log_append : Log K D → Appended K D → Log K D
  unfolding append
  log_append l a = record {
    ring = append l.ring a.kind a.keys a.payload;
    all = l.all ++ stamped l.ring a.kind a.keys a.payload ∷ [];
  }

  unfoldable pub log_appends : Log K D → List (Appended K D) → Log K D
  log_appends l [] = l
  log_appends l (a ∷ as') = log_appends (log_append l a) as'

  -- The events carry the numbers after `n`, one after the other.
  Numbered : ℕ → List (LiveEvent K D) → Type 0
  Numbered n [] = Unit
  Numbered n (x ∷ xs) = (x.id.seq ≡ suc n) × Numbered (suc n) xs

  Numbered-snoc :
      (n : ℕ) (xs : List (LiveEvent K D)) (x : LiveEvent K D)
      → Numbered n xs
      → x.id.seq ≡ suc (n + length xs)
      → Numbered n (xs ++ x ∷ [])
  unfolding Numbered
  Numbered-snoc n [] x h e = ground arith
  Numbered-snoc n (y ∷ ys) x h e = (h.0, Numbered-snoc (suc n) ys x h.1 (omega (arith, e)))

  Numbered-drop :
      (m n k : ℕ) (xs : List (LiveEvent K D))
      → k ≡ n + m
      → Numbered n xs
      → m ≤ length xs
      → Numbered k (drop m xs)
  unfolding Numbered
  Numbered-drop zero n k xs e h le = subst (λ i. Numbered i xs) (omega (arith, e)) h
  Numbered-drop (suc m) n k [] e h le = tt
  Numbered-drop (suc m) n k (x ∷ xs) e h le =
      Numbered-drop m (suc n) k xs (omega (arith, e)) h.1 (omega (arith, le))

  keep-newer-drop :
      (s n k : ℕ) (xs : List (LiveEvent K D))
      → k ≡ s - n
      → Numbered n xs
      → keep (newer s) xs ≡ drop k xs
  unfolding Numbered
  keep-newer-drop s n k [] e h = sym (drop-nil k)
  keep-newer-drop s n zero (x ∷ xs) e h = ground (arith, keep-newer-drop s (suc n) zero xs)
  keep-newer-drop s n (suc k) (x ∷ xs) e h = ground (arith, keep-newer-drop s (suc n) k xs)

  record Kept (capacity epoch : ℕ) (l : Log K D) : Type 0 where
    held : l.ring.capacity ≡ capacity
    same_epoch : l.ring.epoch ≡ epoch
    counted : l.ring.seq ≡ length l.all
    numbered : Numbered 0 l.all
    newest : l.ring.buffer ≡ drop (length l.all - l.ring.capacity) l.all

  pushed-newest :
      (c : ℕ) (all : List (LiveEvent K D)) (x : LiveEvent K D)
      → (if ltb c (length (drop (length all - c) all ++ x ∷ []))
          then drop 1 (drop (length all - c) all ++ x ∷ [])
          else drop (length all - c) all ++ x ∷ [])
        ≡ drop (length (all ++ x ∷ []) - c) (all ++ x ∷ [])
  pushed-newest c all x = ground (
    arith,
    drop-append (length all - c) all (x ∷ []),
    drop-drop (length all - c) 1 (length (all ++ x ∷ []) - c) (all ++ x ∷ []),
    length-append all (x ∷ []),
    length-append (drop (length all - c) all) (x ∷ []),
    length-drop (length all - c) all,
  )

  log_append-Kept :
      (c e : ℕ) (l : Log K D) (a : Appended K D) → Kept c e l → Kept c e (log_append l a)
  unfolding log_append append
  log_append-Kept c e l a v = record {
    held = v.held;
    same_epoch = v.same_epoch;
    counted = omega (arith, v.counted, length-append l.all (new ∷ []));
    numbered = Numbered-snoc 0 l.all new v.numbered (omega (arith, v.counted));
    newest =
        subst
          (λ b.
            (if ltb l.ring.capacity (length (b ++ new ∷ []))
              then drop 1 (b ++ new ∷ [])
              else b ++ new ∷ [])
            ≡ drop (length (l.all ++ new ∷ []) - l.ring.capacity) (l.all ++ new ∷ []))
          (sym v.newest) (pushed-newest l.ring.capacity l.all new);
  }
    where
      new : LiveEvent K D
      new = stamped l.ring a.kind a.keys a.payload

  log_appends-Kept :
      (c e : ℕ) (l : Log K D) (as' : List (Appended K D))
      → Kept c e l
      → Kept c e (log_appends l as')
  unfolding log_appends
  log_appends-Kept c e l [] v = v
  log_appends-Kept c e l (a ∷ as') v =
      log_appends-Kept c e (log_append l a) as' (log_append-Kept c e l a v)

  abbrev pub new_log : ℕ → ℕ → Log K D
  new_log capacity epoch = record { ring = empty_ring capacity epoch; all = [] }

  oldest_seq-Numbered :
      (ring : LiveRing K D) (k : ℕ) (xs : List (LiveEvent K D))
      → ring.buffer ≡ xs
      → Numbered k xs
      → (1 ≤ length xs → oldest_seq ring ≡ suc k) × (length xs ≡ 0 → oldest_seq ring ≡ ring.seq)
  unfolding Numbered
  oldest_seq-Numbered ring k [] same h =
      (λ pos. absurd (omega (arith, pos)), λ none_left. rw same refl)
  oldest_seq-Numbered ring k (x ∷ xs) same h =
      (λ pos. rw same h.0, λ none_left. absurd (omega (arith, none_left)))

  oldest_seq-Kept :
      (l : Log K D) (c e : ℕ)
      → Kept c e l
      → 1 ≤ c
      → (1 ≤ length l.all → oldest_seq l.ring ≡ suc (length l.all - c))
        × (length l.all ≡ 0 → oldest_seq l.ring ≡ 0)
  oldest_seq-Kept l c e v pos =
      let first = length l.all - l.ring.capacity in
      let facts =
        oldest_seq-Numbered l.ring first (drop first l.all) v.newest
          (Numbered-drop first 0 first l.all (omega arith) v.numbered (omega arith)) in
      (
        λ some_left. ground (arith, facts, v.held, length-drop first l.all),
        λ none_left. ground (arith, facts, v.held, v.counted, length-drop first l.all),
      )

  abbrev pub all_after : ℕ → Log K D → Backfill K D
  all_after s l = record { events = drop s l.all; resync = false; reason = none }

  keep-newer-Kept :
      (l : Log K D) (c e s : ℕ)
      → Kept c e l
      → length l.all ≤ s + c
      → keep (newer s) l.ring.buffer ≡ drop s l.all
  keep-newer-Kept l c e s v near =
      let first = length l.all - l.ring.capacity in
      ap (keep (newer s)) v.newest
      ∙ keep-newer-drop s first (s - first) (drop first l.all) refl
          (Numbered-drop first 0 first l.all (omega arith) v.numbered (omega arith))
      ∙ drop-drop first (s - first) s l.all (omega (arith, near, v.held))

  -- What a client is promised, told from all the events that there were.
  unfoldable pub promised : (capacity epoch : ℕ) → Log K D → EventId → Backfill K D
  promised capacity epoch l id =
      if (id.epoch == epoch) && leb id.seq (length l.all)
      then if ltb (id.seq + capacity) (length l.all) then start_over too_old else all_after id.seq l
      else start_over unknown_epoch

  abbrev answered : List (LiveEvent K D) → Backfill K D
  answered es = record { events = es; resync = false; reason = none }

  since-Kept :
      (l : Log K D) (c e : ℕ) (id : EventId)
      → Kept c e l
      → 1 ≤ c
      → since l.ring (seen id) ≡ promised c e l id
  unfolding since promised
  since-Kept l c e id v pos =
      let oldest = oldest_seq-Kept l c e v pos in
      ground (
        arith,
        v.same_epoch,
        v.counted,
        oldest,
        (λ (near : length l.all ≤ id.seq + c). ap answered (keep-newer-Kept l c e id.seq v near)),
      )

  new_log-Kept : (c e : ℕ) → Kept c e (new_log c e)
  unfolding Numbered
  new_log-Kept c e = record {
    held = refl;
    same_epoch = refl;
    counted = refl;
    numbered = tt;
    newest = sym (drop-nil (0 - c));
  }

module _ {K D : Type 0} (c e : ℕ) (as' : List (Appended K D)) where
  abbrev pub after_all : Log K D
  after_all = log_appends (new_log c e) as'

  -- A ring with room for at least one event answers a client that has seen the event `id` by what
  -- was ever appended: all the events after that one, none missing, none twice and in order; or to
  -- start over, where the identifier is from another epoch or ahead of the ring, or where more than
  -- a ring's capacity of events have come since.
  pub since-promised :
      (id : EventId) → 1 ≤ c → since after_all.ring (seen id) ≡ promised c e after_all id
  since-promised id pos =
      since-Kept after_all c e id (log_appends-Kept c e (new_log c e) as' (new_log-Kept c e)) pos
