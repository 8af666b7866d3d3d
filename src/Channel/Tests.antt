-- ===== src/Channel/Tests.antt =====
-- The connection's theorems on the directive handler of `Directive`.
use nbe.Prelude.{ℕ, ◌≡◌, refl, arith, true, false, some, none, List, [], ◌∷◌, map}
use nbe.Directive.{Engine, Command, fallback, ignored}
use nbe.Directive.Tests.{on_air_engine}
use nbe.Channel.{DirectiveFrame, Connection, Item, frame, connected, receive_all}
use nbe.Channel.Engine.{engine_handler, engine_handler-Laws}
use nbe.Channel.Order.{InOrder, receive_all-InOrder}
use nbe.Channel.Versions.{Newer, reached, receive_all-Newer}
use nbe.Channel.Gaps.{newer_count, requests, receive_all-missed}
use nbe.Channel.Backoff.{sleeps, backoff, initial_delay_ms, sleeps-backoff}

abbrev engine : Engine × ℕ
engine = (on_air_engine, 0)

abbrev resync : DirectiveFrame (ℕ × Command)
resync = record { seq = 0; state_version = 9; is_resync = true; body = (0, ignored) }

abbrev slate : ℕ → ℕ → DirectiveFrame (ℕ × Command)
slate seq version = record {
  seq = seq;
  state_version = version;
  is_resync = false;
  body = (0, fallback);
}

abbrev items : List (Item (ℕ × Command))
items = frame (slate 4 8) ∷ frame resync ∷ frame (slate 1 10) ∷ frame (slate 3 11) ∷ []

receive_all-InOrder_example :
    InOrder none (receive_all engine_handler (connected engine_handler engine) items).handed
receive_all-InOrder_example = receive_all-InOrder engine_handler engine items

receive_all-Newer_example :
    let c = receive_all engine_handler (connected engine_handler engine) items in
    Newer 4 c.handed × (c.engine.0.last_applied ≡ reached 4 c.handed)
receive_all-Newer_example = receive_all-Newer engine_handler engine_handler-Laws engine items

abbrev waiting : Connection (Engine × ℕ) (ℕ × Command)
waiting = record {
  gate = record { resynced = true; expected_seq = some 2 };
  engine = engine;
  over = false;
  handed = [];
}

abbrev late : List (DirectiveFrame (ℕ × Command))
late = slate 3 5 ∷ slate 4 3 ∷ slate 5 7 ∷ []

receive_all-missed_example :
    receive_all engine_handler waiting (map (λ f. frame f) late)
    ≡ record waiting { engine = requests engine_handler (newer_count 4 late) engine }
receive_all-missed_example =
    receive_all-missed engine_handler engine_handler-Laws waiting 2 late refl refl refl
      ((refl, omega arith), ((refl, omega arith), ((refl, omega arith), tt)))

sleeps-backoff_example :
    sleeps initial_delay_ms (5 ∷ 20 ∷ 9000 ∷ []) ≡ backoff 0 (5 ∷ 20 ∷ 9000 ∷ [])
sleeps-backoff_example = sleeps-backoff (5 ∷ 20 ∷ 9000 ∷ [])
