-- ===== src/Channel.antt =====
-- The engine's end of the control-plane connection, crates/nbe-engine/src/channel.rs: the gate, the inbound loop and
-- the delay between connections. The directive handler is the interface `Handler`; the outbound tasks and the socket
-- are not modelled.
pub mod Cases
pub mod Order
pub mod Versions
pub mod Gaps
pub mod Backoff
pub mod Engine
mod Tests
use nbe.Prelude.{
  ℕ, zero, suc, ◌+◌, ◌*◌, ◌≡◌, min, Bool, true, false, Option, none, some, List, [], ◌∷◌, ◌++◌, ltb,
  leb, ◌==◌, if◌then◌else◌,
}

-- `is_resync` says that the command is `show.resync`.
pub record DirectiveFrame (C : Type 0) : Type 0 where
  pub seq : ℕ
  pub state_version : ℕ
  pub is_resync : Bool
  pub body : C

pub record ConnectionGate : Type 0 where
  pub resynced : Bool
  pub expected_seq : Option ℕ

pub data GateDecision : Type 0 where
  accept wait_for_resync stale_state_version seq_gap : GateDecision

abbrev pub new_gate : ConnectionGate
new_gate = record { resynced = false; expected_seq = none }

-- What a connection uses of the engine: `DirectiveHandler::apply` with whether it succeeded, `last_applied`, and the
-- push of a `ResyncRequest`.
pub record Handler (S : Type 0) (C : Type 0) : Type 0 where
  pub apply : S → DirectiveFrame C → Bool × S
  pub last_applied : S → ℕ
  pub request_resync : S → S

abbrev pub expect : ConnectionGate → Option ℕ → ℕ → GateDecision × ConnectionGate
expect g none seq = (accept, g)
expect g (some e) seq =
    if seq == e then (accept, record g { expected_seq = some (e + 1) }) else (seq_gap, g)

module _ {C : Type 0} where
  unfoldable pub on_resync : ConnectionGate → DirectiveFrame C → ConnectionGate
  on_resync g f = record { resynced = true; expected_seq = some (f.seq + 1) }

  unfoldable pub classify : ConnectionGate → DirectiveFrame C → ℕ → GateDecision × ConnectionGate
  classify g f applied =
      if g.resynced
      then if leb f.state_version applied
        then (stale_state_version, g)
        else expect g g.expected_seq f.seq
      else (wait_for_resync, g)

-- What the reader yields: a frame, something else that is skipped, or an error, which ends the connection.
pub data Item (C : Type 0) : Type 0 where
  frame : DirectiveFrame C → Item C
  skipped read_failed : Item C

-- A connection in its inbound loop. `handed` is what the handler was given, oldest first, each with whether it
-- succeeded.
pub record Connection (S : Type 0) (C : Type 0) : Type 0 where
  pub gate : ConnectionGate
  pub engine : S
  pub over : Bool
  pub handed : List (DirectiveFrame C × Bool)

module _ {S : Type 0} {C : Type 0} (h : Handler S C) where
  -- A connection is made on an engine.
  abbrev pub connected : S → Connection S C
  connected s = record { gate = new_gate; engine = s; over = false; handed = [] }

  unfoldable pub hand : Connection S C → DirectiveFrame C → Bool × Connection S C
  hand c f =
      let (ok, s) = h.apply c.engine f in
      (ok, record c { engine = s; handed = c.handed ++ ((f, ok) ∷ []) })

  -- A resync is applied first, and opens the gate if it did not fail.
  unfoldable pub take_resync : Connection S C → DirectiveFrame C → Connection S C
  unfolding hand on_resync
  take_resync c f =
      let (ok, d) = hand c f in
      if ok then record d { gate = on_resync d.gate f } else record d { over = true }

  abbrev pub decide : Connection S C → DirectiveFrame C → GateDecision → Connection S C
  decide c f accept = (hand c f).1
  decide c f wait_for_resync = c
  decide c f stale_state_version = c
  decide c f seq_gap = record c { engine = h.request_resync c.engine }

  unfoldable pub take_frame : Connection S C → DirectiveFrame C → Connection S C
  unfolding take_resync classify
  take_frame c f =
      if f.is_resync
      then take_resync c f
      else let (d, g) = classify c.gate f (h.last_applied c.engine) in
        decide (record c { gate = g }) f d

  unfoldable pub receive : Connection S C → Item C → Connection S C
  unfolding take_frame
  receive c (frame f) = if c.over then c else take_frame c f
  receive c skipped = c
  receive c read_failed = record c { over = true }

  unfoldable pub receive_all : Connection S C → List (Item C) → Connection S C
  unfolding receive
  receive_all c [] = c
  receive_all c (x ∷ xs) = receive_all (receive c x) xs
