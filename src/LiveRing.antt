-- ===== src/LiveRing.antt =====
-- services/api-gateway/src/events/live-ring.ts: the ring of the last live events, from which a
-- client that comes back is sent what it missed. An identifier "epoch:number" is kept as its two
-- numbers, so `parseId` is the reading of a text that has them; keys and data are any types.
pub mod Missed
mod Tests
use fieldstream.Common.{
  ℕ, zero, suc, ◌+◌, ◌-◌, Bool, true, false, not, Option, none, some, List, [], ◌∷◌, ◌++◌, ltb,
  ◌==◌, if◌then◌else◌, length, drop, keep,
}

pub data LiveEventKind : Type 0 where
  reading device_state alarm ping hello : LiveEventKind

pub record EventId : Type 0 where
  pub epoch : ℕ
  pub seq : ℕ

pub record LiveEvent (K D : Type 0) : Type 0 where
  pub id : EventId
  pub kind : LiveEventKind
  pub keys : List K
  pub payload : D

-- What a client sends of the last event it saw: nothing, a text that is no identifier, or one.
pub data LastSeen : Type 0 where
  first_time unreadable : LastSeen
  seen : EventId → LastSeen

pub data ResyncReason : Type 0 where
  unknown_epoch too_old : ResyncReason

pub record Backfill (K D : Type 0) : Type 0 where
  pub events : List (LiveEvent K D)
  pub resync : Bool
  pub reason : Option ResyncReason

pub record LiveRing (K D : Type 0) : Type 0 where
  pub buffer : List (LiveEvent K D)
  pub seq : ℕ
  pub capacity : ℕ
  pub epoch : ℕ

module _ {K D : Type 0} where
  abbrev pub empty_ring : ℕ → ℕ → LiveRing K D
  empty_ring capacity epoch = record { buffer = []; seq = 0; capacity = capacity; epoch = epoch }

  abbrev pub current_id : LiveRing K D → EventId
  current_id ring = record { epoch = ring.epoch; seq = ring.seq }

  abbrev pub size : LiveRing K D → ℕ
  size ring = length ring.buffer

  -- The event that `append` returns.
  abbrev pub stamped : LiveRing K D → LiveEventKind → List K → D → LiveEvent K D
  stamped ring kind keys payload = record {
    id = record { epoch = ring.epoch; seq = ring.seq + 1 };
    kind = kind;
    keys = keys;
    payload = payload;
  }

  -- `append`: the oldest event goes where the ring is over its capacity.
  unfoldable pub append : LiveRing K D → LiveEventKind → List K → D → LiveRing K D
  append ring kind keys payload =
      let pushed = ring.buffer ++ stamped ring kind keys payload ∷ [] in
      record ring {
        seq = ring.seq + 1;
        buffer = if ltb ring.capacity (length pushed) then drop 1 pushed else pushed;
      }

  abbrev pub oldest_seq : LiveRing K D → ℕ
  oldest_seq ring = elim ring.buffer [ [] ↦ ring.seq | oldest ∷ _ ↦ oldest.id.seq ]

  abbrev pub newer : ℕ → LiveEvent K D → Bool
  newer seq event = ltb seq event.id.seq

  abbrev pub nothing_missed : Backfill K D
  nothing_missed = record { events = []; resync = false; reason = none }

  abbrev pub start_over : ResyncReason → Backfill K D
  start_over why = record { events = []; resync = true; reason = some why }

  unfoldable pub since : LiveRing K D → LastSeen → Backfill K D
  since ring first_time = nothing_missed
  since ring unreadable = start_over unknown_epoch
  since ring (seen id) =
      if not (id.epoch == ring.epoch)
      then start_over unknown_epoch
      else if ltb ring.seq id.seq
      then start_over unknown_epoch
      else if ltb (id.seq + 1) (oldest_seq ring)
      then start_over too_old
      else record { events = keep (newer id.seq) ring.buffer; resync = false; reason = none }
