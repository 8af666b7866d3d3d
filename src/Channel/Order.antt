-- ===== src/Channel/Order.antt =====
-- In which order a connection hands directives to the handler, channel.rs.
use nbe.Prelude.{
  ℕ, ◌+◌, ◌≡◌, ◌⊎◌, refl, ◌∙◌, ap, sym, arith, Bool, true, false, if-cases, Bool-cases, inl, inr,
  Option, none, some, List, [], ◌∷◌, ◌++◌, if◌then◌else◌,
}
use nbe.Channel.Cases.{Advances, handed_on, take_frame_cases}
use nbe.Channel.{
  DirectiveFrame, ConnectionGate, Handler, Connection, Item, frame, skipped, read_failed, connected,
  on_resync, take_frame, receive, receive_all,
}

module _ {C : Type 0} where
  -- The sequence number that is next after a frame.
  abbrev pub next_after : Option ℕ → DirectiveFrame C × Bool → Option ℕ
  next_after e (f, true) = some (f.seq + 1)
  next_after e (f, false) = if f.is_resync then e else some (f.seq + 1)

  -- Before a resync there is no directive; after one, or after a directive, comes the next number.
  abbrev pub InOrder : Option ℕ → List (DirectiveFrame C × Bool) → Type 0
  InOrder e [] = Unit {0}
  InOrder e (x ∷ xs) = ((x.0.is_resync ≡ true) ⊎ (e ≡ some x.0.seq)) × InOrder (next_after e x) xs

  abbrev expected : Option ℕ → List (DirectiveFrame C × Bool) → Option ℕ
  expected e [] = e
  expected e (x ∷ xs) = expected (next_after e x) xs

  InOrder-snoc :
      (e : Option ℕ) (xs : List (DirectiveFrame C × Bool)) (x : DirectiveFrame C × Bool)
      → InOrder e xs
      → (x.0.is_resync ≡ true) ⊎ (expected e xs ≡ some x.0.seq)
      → InOrder e (xs ++ (x ∷ []))
  InOrder-snoc e [] x v h = (h, tt)
  InOrder-snoc e (y ∷ xs) x v h = (v.0, InOrder-snoc (next_after e y) xs x v.1 h)

  expected-snoc :
      (e : Option ℕ) (xs : List (DirectiveFrame C × Bool)) (x : DirectiveFrame C × Bool)
      → expected e (xs ++ (x ∷ [])) ≡ next_after (expected e xs) x
  expected-snoc e [] x = refl
  expected-snoc e (y ∷ xs) x = expected-snoc (next_after e y) xs x

-- An open gate expects a number.
abbrev IsOpen : ConnectionGate → Type 0
IsOpen g = (g.resynced ≡ false) ⊎ ((n : ℕ) × (g.expected_seq ≡ some n))

module _ {S : Type 0} {C : Type 0} (h : Handler S C) where
  record Inv (c : Connection S C) : Type 0 where
    ordered : InOrder none c.handed
    tracked : c.gate.expected_seq ≡ expected none c.handed
    gated : IsOpen c.gate

  handed-Inv :
      (c : Connection S C) (f : DirectiveFrame C) (over : Bool) (g : ConnectionGate)
      → (f.is_resync ≡ true) ⊎ (c.gate.expected_seq ≡ some f.seq)
      → g.expected_seq ≡ next_after c.gate.expected_seq (f, (h.apply c.engine f).0)
      → IsOpen g
      → Inv c
      → Inv (handed_on h c f g over)
  handed-Inv c f over g d e o v = record {
    ordered = InOrder-snoc none c.handed (f, ok) v.ordered (ground (arith, d, v.tracked));
    tracked =
        e ∙ ap (λ n. next_after n (f, ok)) v.tracked ∙ sym (expected-snoc none c.handed (f, ok));
    gated = o;
  }
    where
      ok : Bool
      ok = (h.apply c.engine f).0

  take_frame-Inv : (c : Connection S C) (f : DirectiveFrame C) → Inv c → Inv (take_frame h c f)
  unfolding on_resync
  take_frame-Inv c f v =
      take_frame_cases h Inv c f
        (λ r e. handed-Inv c f c.over _ (inl r) (ground (arith, e)) (inr (f.seq + 1, refl)) v)
        (λ r e. handed-Inv c f true c.gate (inl r) (ground (arith, e, r)) v.gated v) v
        (record { ordered = v.ordered; tracked = v.tracked; gated = v.gated })
        (λ r l g o o' a. accepted-Inv r g o o' a)
    where
      accepted-Inv :
          f.is_resync ≡ false
          → (g : ConnectionGate) → c.gate.resynced ≡ true
          → g.resynced ≡ true
          → Advances c.gate g f.seq
          → Inv (handed_on h c f g c.over)
      accepted-Inv r g o o' (inl (x, y)) = absurd (ground (arith, o, x, v.gated))
      accepted-Inv r g o o' (inr (x, y)) =
          handed-Inv c f c.over g (inr x)
            (elim (Bool-cases (h.apply c.engine f).0) [
              | inl e ↦ rw (e, y) refl
              | inr e ↦ rw (e, r, y) refl
            ])
            (inr (f.seq + 1, y)) v

  receive-Inv : (c : Connection S C) (x : Item C) → Inv c → Inv (receive h c x)
  unfolding receive
  receive-Inv c (frame f) v = if-cases Inv c.over _ _ (λ _. v) (λ _. take_frame-Inv c f v)
  receive-Inv c skipped v = v
  receive-Inv c read_failed v = record { ordered = v.ordered; tracked = v.tracked; gated = v.gated }

  receive_all-Inv : (c : Connection S C) (xs : List (Item C)) → Inv c → Inv (receive_all h c xs)
  unfolding receive_all
  receive_all-Inv c [] v = v
  receive_all-Inv c (x ∷ xs) v = receive_all-Inv (receive h c x) xs (receive-Inv c x v)

  -- Whatever comes in on a new connection: the handler is given no directive before a resync that it applied, and
  -- after one it is given directives with the next sequence numbers, each once and none left out.
  pub receive_all-InOrder :
      (s : S) (xs : List (Item C)) → InOrder none (receive_all h (connected h s) xs).handed
  receive_all-InOrder s xs =
      let v =
        receive_all-Inv (connected h s) xs
          (record { ordered = tt; tracked = refl; gated = inl refl }) in
      v.ordered
