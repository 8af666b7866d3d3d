-- ===== src/Channel/Engine.antt =====
-- The directive handler of `Directive` as what a connection uses, directive.rs and channel.rs. A frame has the instant it
-- arrives and its command; the requests for a resync are counted beside the engine.
use nbe.Prelude.{
  ℕ, ◌+◌, ◌≡◌, refl, arith, Bool, true, false, Option, none, some, Option-cases, inl, inr,
}
use nbe.Directive.{Engine, DirectiveError, Command}
use nbe.Directive.Apply
use nbe.Directive.Acks.{apply-acks}
use nbe.Channel.{DirectiveFrame, Handler}
use nbe.Channel.Versions.{Laws}

abbrev pub is_ok : Option DirectiveError → Bool
is_ok none = true
is_ok (some x) = false

abbrev pub apply_frame : Engine × ℕ → DirectiveFrame (ℕ × Command) → Bool × (Engine × ℕ)
apply_frame (e, n) f =
    let (e', error) = Apply.apply e f.body.0 f.state_version f.body.1 in (is_ok error, (e', n))

abbrev pub engine_handler : Handler (Engine × ℕ) (ℕ × Command)
engine_handler = record {
  apply = apply_frame;
  last_applied = λ s. s.0.last_applied;
  request_resync = λ s. (s.0, s.1 + 1);
}

pub engine_handler-Laws : Laws engine_handler
engine_handler-Laws = record {
  applied = λ s f e. done s.0 f e;
  refused = λ s f e. kept s.0 f e;
  requested = λ s. refl;
}
  where
    done :
        (e : Engine) (f : DirectiveFrame (ℕ × Command))
        → is_ok (Apply.apply e f.body.0 f.state_version f.body.1).1 ≡ true
        → (Apply.apply e f.body.0 f.state_version f.body.1).0.last_applied ≡ f.state_version
    done e f h = elim (Option-cases (Apply.apply e f.body.0 f.state_version f.body.1).1) [
      | inl n ↦ ((apply-acks e f.body.0 f.state_version f.body.1).0 n).0
      | inr (x, n) ↦ absurd (ground (arith, h, n))
    ]

    kept :
        (e : Engine) (f : DirectiveFrame (ℕ × Command))
        → is_ok (Apply.apply e f.body.0 f.state_version f.body.1).1 ≡ false
        → (Apply.apply e f.body.0 f.state_version f.body.1).0.last_applied ≡ e.last_applied
    kept e f h = elim (Option-cases (Apply.apply e f.body.0 f.state_version f.body.1).1) [
      | inl n ↦ absurd (ground (arith, h, n))
      | inr (x, n) ↦ ((apply-acks e f.body.0 f.state_version f.body.1).1 x n).0
    ]
