-- ===== src/Channel/Versions.antt =====
-- The state versions that a connection applies, channel.rs, on a handler that stores the version of what it applied.
use nbe.Prelude.{
  ℕ, ◌<◌, ◌≡◌, ◌⊎◌, refl, ◌∙◌, sym, arith, Bool, true, false, if-cases, Bool-cases, inl, inr, List,
  [], ◌∷◌, ◌++◌, if◌then◌else◌,
}
use nbe.Channel.Cases.{handed_on, take_frame_cases}
use nbe.Channel.{
  DirectiveFrame, ConnectionGate, Handler, Connection, Item, frame, skipped, read_failed, connected,
  on_resync, take_frame, receive, receive_all,
}

-- `apply` of directive.rs stores the version of a directive that did not fail, and of no other.
pub record Laws {S : Type 0} {C : Type 0} (h : Handler S C) : Type 0 where
  pub applied :
      (s : S) (f : DirectiveFrame C)
      → (h.apply s f).0 ≡ true
      → h.last_applied (h.apply s f).1 ≡ f.state_version
  pub refused :
      (s : S) (f : DirectiveFrame C)
      → (h.apply s f).0 ≡ false
      → h.last_applied (h.apply s f).1 ≡ h.last_applied s
  pub requested : (s : S) → h.last_applied (h.request_resync s) ≡ h.last_applied s

module _ {C : Type 0} where
  abbrev pub version_after : ℕ → DirectiveFrame C × Bool → ℕ
  version_after v (f, ok) = if ok then f.state_version else v

  -- From a version on, each directive is newer than what was applied last; a resync sets the version.
  abbrev pub Newer : ℕ → List (DirectiveFrame C × Bool) → Type 0
  Newer v [] = Unit {0}
  Newer v (x ∷ xs) =
      ((x.0.is_resync ≡ true) ⊎ (v < x.0.state_version)) × Newer (version_after v x) xs

  abbrev pub reached : ℕ → List (DirectiveFrame C × Bool) → ℕ
  reached v [] = v
  reached v (x ∷ xs) = reached (version_after v x) xs

  Newer-snoc :
      (v : ℕ) (xs : List (DirectiveFrame C × Bool)) (x : DirectiveFrame C × Bool)
      → Newer v xs
      → (x.0.is_resync ≡ true) ⊎ (reached v xs < x.0.state_version)
      → Newer v (xs ++ (x ∷ []))
  Newer-snoc v [] x w h = (h, tt)
  Newer-snoc v (y ∷ xs) x w h = (w.0, Newer-snoc (version_after v y) xs x w.1 h)

  reached-snoc :
      (v : ℕ) (xs : List (DirectiveFrame C × Bool)) (x : DirectiveFrame C × Bool)
      → reached v (xs ++ (x ∷ [])) ≡ version_after (reached v xs) x
  reached-snoc v [] x = refl
  reached-snoc v (y ∷ xs) x = reached-snoc (version_after v y) xs x

module _ {S : Type 0} {C : Type 0} (h : Handler S C) (laws : Laws h) (v : ℕ) where
  record Inv (c : Connection S C) : Type 0 where
    newer : Newer v c.handed
    current : h.last_applied c.engine ≡ reached v c.handed

  handed-Inv :
      (c : Connection S C) (f : DirectiveFrame C) (over : Bool) (g : ConnectionGate)
      → (f.is_resync ≡ true) ⊎ (h.last_applied c.engine < f.state_version)
      → Inv c
      → Inv (handed_on h c f g over)
  handed-Inv c f over g d w = record {
    newer = Newer-snoc v c.handed (f, ok) w.newer (ground (arith, d, w.current));
    current = elim (Bool-cases ok) [
      | inl e ↦ laws.applied c.engine f e ∙ sym (reached-snoc v c.handed (f, ok) ∙ rw e refl)
      | inr e ↦
          laws.refused c.engine f e ∙ w.current ∙ sym (reached-snoc v c.handed (f, ok) ∙ rw e refl)
    ];
  }
    where
      ok : Bool
      ok = (h.apply c.engine f).0

  take_frame-Inv : (c : Connection S C) (f : DirectiveFrame C) → Inv c → Inv (take_frame h c f)
  take_frame-Inv c f w =
      take_frame_cases h Inv c f (λ r e. handed-Inv c f c.over (on_resync c.gate f) (inl r) w)
        (λ r e. handed-Inv c f true c.gate (inl r) w) w
        (record { newer = w.newer; current = laws.requested c.engine ∙ w.current })
        (λ r l g o o' a. handed-Inv c f c.over g (inr (ground (arith, l))) w)

  receive-Inv : (c : Connection S C) (x : Item C) → Inv c → Inv (receive h c x)
  unfolding receive
  receive-Inv c (frame f) w = if-cases Inv c.over _ _ (λ _. w) (λ _. take_frame-Inv c f w)
  receive-Inv c skipped w = w
  receive-Inv c read_failed w = record { newer = w.newer; current = w.current }

  receive_all-Inv : (c : Connection S C) (xs : List (Item C)) → Inv c → Inv (receive_all h c xs)
  unfolding receive_all
  receive_all-Inv c [] w = w
  receive_all-Inv c (x ∷ xs) w = receive_all-Inv (receive h c x) xs (receive-Inv c x w)

module _ {S : Type 0} {C : Type 0} (h : Handler S C) (laws : Laws h) where
  -- Whatever comes in on a new connection, of a handler that stores the version of what it applied and of nothing else:
  -- each directive that is handed to it is newer than what it applied last, or is a resync, which may set an older
  -- version, and the version it ends at is that of the last frame applied.
  pub receive_all-Newer :
      (s : S) (xs : List (Item C))
      → let c = receive_all h (connected h s) xs in
        Newer (h.last_applied s) c.handed
        × (h.last_applied c.engine ≡ reached (h.last_applied s) c.handed)
  receive_all-Newer s xs =
      let w =
        receive_all-Inv h laws (h.last_applied s) (connected h s) xs
          (record { newer = tt; current = refl }) in
      (w.newer, w.current)
