-- ===== src/Channel/Gaps.antt =====
-- A connection after a gap in the sequence numbers, channel.rs.
use nbe.Prelude.{
  ℕ, zero, suc, ◌≡◌, ◌≢◌, refl, ◌∙◌, ap, arith, true, false, Bool-cases, inl, inr, some, List, [],
  ◌∷◌, map, All, leb, if◌then◌else◌,
}
use nbe.Channel.{
  DirectiveFrame, Handler, Connection, frame, classify, take_frame, receive, receive_all,
}
use nbe.Channel.Versions.{Laws}

module _ {C : Type 0} where
  -- Directives of other numbers than the one that is waited for.
  abbrev pub Past : ℕ → List (DirectiveFrame C) → Type 0
  Past e fs = All (λ f. (f.is_resync ≡ false) × (f.seq ≢ e)) fs

  abbrev pub newer_count : ℕ → List (DirectiveFrame C) → ℕ
  newer_count v [] = 0
  newer_count v (f ∷ fs) =
      let rest = newer_count v fs in if leb f.state_version v then rest else suc rest

module _ {S : Type 0} {C : Type 0} (h : Handler S C) where
  -- So many requests for a resync.
  abbrev pub requests : ℕ → S → S
  requests zero s = s
  requests (suc n) s = requests n (h.request_resync s)

  missed :
      (c : Connection S C) (f : DirectiveFrame C) (e : ℕ)
      → c.over ≡ false
      → c.gate.resynced ≡ true
      → c.gate.expected_seq ≡ some e
      → f.is_resync ≡ false
      → f.seq ≢ e
      → receive h c (frame f) ≡ (
          if leb f.state_version (h.last_applied c.engine)
          then c
          else record c { engine = h.request_resync c.engine })
  unfolding receive take_frame classify
  missed c f e o r x n d = ground (arith, o, r, x, n, d)

module _ {S : Type 0} {C : Type 0} (h : Handler S C) (laws : Laws h) where
  -- On an open connection that waits for a number, directives that all have other numbers, in any order and with any
  -- versions, are not handed to the handler, and the number waited for stays: each that is newer than what was applied
  -- asks for one resync, and the others do nothing.
  pub receive_all-missed :
      (c : Connection S C) (e : ℕ) (fs : List (DirectiveFrame C))
      → c.over ≡ false
      → c.gate.resynced ≡ true
      → c.gate.expected_seq ≡ some e
      → Past e fs
      → receive_all h c (map (λ f. frame f) fs)
        ≡ record c { engine = requests h (newer_count (h.last_applied c.engine) fs) c.engine }
  unfolding receive_all
  receive_all-missed c e [] o r x p = refl
  receive_all-missed c e (f ∷ fs) o r x p =
      elim (Bool-cases (leb f.state_version (h.last_applied c.engine))) [
        | inl l ↦
            ap (λ d. receive_all h d (map (λ f. frame f) fs)) (step ∙ rw l refl)
            ∙ receive_all-missed c e fs o r x p.1
            ∙ rw l refl
        | inr l ↦
            ap (λ d. receive_all h d (map (λ f. frame f) fs)) (step ∙ rw l refl)
            ∙ receive_all-missed asked e fs o r x p.1
            ∙ ap (λ v. record c { engine = requests h (newer_count v fs) asked.engine })
                (laws.requested c.engine)
            ∙ rw l refl
      ]
    where
      asked : Connection S C
      asked = record c { engine = h.request_resync c.engine }

      step :
          receive h c (frame f)
          ≡ (if leb f.state_version (h.last_applied c.engine) then c else asked)
      step = missed h c f e o r x p.0.0 p.0.1
