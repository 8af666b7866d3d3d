-- ===== src/Channel/Cases.antt =====
-- The cases of the inbound loop's step, channel.rs.
use nbe.Prelude.{
  ℕ, ◌+◌, ◌≡◌, ◌⊎◌, inl, inr, refl, arith, Bool, true, false, if-cases, Option, none, some, [], ◌∷◌,
  ◌++◌, leb, ◌==◌,
}
use nbe.Channel.{
  DirectiveFrame, ConnectionGate, GateDecision, Handler, Connection, on_resync, classify, expect,
  hand, take_resync, decide, take_frame,
}

-- The gates before and after a directive that is accepted.
abbrev pub Advances : ConnectionGate → ConnectionGate → ℕ → Type 0
Advances g g' seq =
    ((g.expected_seq ≡ none) × (g'.expected_seq ≡ none))
    ⊎ ((g.expected_seq ≡ some seq) × (g'.expected_seq ≡ some (seq + 1)))

module _ {S : Type 0} {C : Type 0} (h : Handler S C) where
  -- What a connection becomes when the handler is given a frame.
  abbrev pub handed_on : Connection S C → DirectiveFrame C → ConnectionGate → Bool → Connection S C
  handed_on c f g over = record {
    gate = g;
    engine = (h.apply c.engine f).1;
    over = over;
    handed = c.handed ++ ((f, (h.apply c.engine f).0) ∷ []);
  }

  pub take_frame_cases {ℓ} :
      (P : Connection S C → Type ℓ) (c : Connection S C) (f : DirectiveFrame C)
      → (f.is_resync ≡ true
          → (h.apply c.engine f).0 ≡ true
          → P (handed_on c f (on_resync c.gate f) c.over))
      → (f.is_resync ≡ true → (h.apply c.engine f).0 ≡ false → P (handed_on c f c.gate true))
      → P c
      → P (record c { engine = h.request_resync c.engine })
      → (f.is_resync ≡ false
          → leb f.state_version (h.last_applied c.engine) ≡ false
          → (g : ConnectionGate) → c.gate.resynced ≡ true
          → g.resynced ≡ true
          → Advances c.gate g f.seq
          → P (handed_on c f g c.over))
      → P (take_frame h c f)
  unfolding take_frame take_resync classify hand on_resync
  take_frame_cases P c f resync failed dropped gap next =
      if-cases P f.is_resync _ _
        (λ r. if-cases P (h.apply c.engine f).0 _ _ (λ ok. resync r ok) (λ ok. failed r ok))
        (λ r.
          if-cases Q c.gate.resynced _ _
            (λ o.
              if-cases Q (leb f.state_version (h.last_applied c.engine)) _ _ (λ _. dropped)
                (λ l. numbered r o l c.gate.expected_seq refl))
            (λ _. dropped))
    where
      Q : GateDecision × ConnectionGate → Type ℓ
      Q d = P (decide h (record c { gate = d.1 }) f d.0)

      numbered :
          f.is_resync ≡ false
          → c.gate.resynced ≡ true
          → leb f.state_version (h.last_applied c.engine) ≡ false
          → (old : Option ℕ) → c.gate.expected_seq ≡ old
          → Q (expect c.gate old f.seq)
      numbered r o l none e = next r l c.gate o o (inl (e, e))
      numbered r o l (some n) e =
          if-cases Q (f.seq == n) _ _
            (λ m.
              next r l (record c.gate { expected_seq = some (n + 1) }) o o
                (inr (ground (arith, e, m), ground (arith, m))))
            (λ _. gap)
