-- ===== src/Automation/Watches.antt =====
-- The engine's list of watches, `audio_level_watches` of automation.rs.
use nbe.Prelude.{
  ◌≡◌, refl, sym, ◌∙◌, arith, true, false, ◌||◌, Bool-cases, inl, inr, Option, none, some, List, [],
  ◌∷◌, ◌++◌, append_assoc, append-nil, subst,
}
use text.Mathlib.TextEquality.{eq_iff}
use nbe.Manifest.{AutomationRule}
use nbe.Automation.{same_number, AudioLevelWatch, ParamError, Result, ok, err}
use nbe.Automation.Levels.{
  audio_level_watch, same_watch, has_watch, add_watch, watches_from, audio_level_watches,
}

-- No watch is the same as one before it.
abbrev pub IsDistinct : List AudioLevelWatch → List AudioLevelWatch → Type 0
IsDistinct before [] = Unit
IsDistinct before (w ∷ ws) = (has_watch before w ≡ false) × IsDistinct (before ++ (w ∷ [])) ws

-- The errors of the rules that were refused, in the rules' order.
abbrev pub refusals : List AutomationRule → List ParamError
refusals [] = []
refusals (rule ∷ rules) =
    let rest = refusals rules in elim (audio_level_watch rule) [ ok o ↦ rest | err e ↦ e ∷ rest ]

-- Every rule that asks for a watch is listed.
abbrev pub IsCovered : List AudioLevelWatch → List AutomationRule → Type 0
IsCovered ws [] = Unit
IsCovered ws (rule ∷ rules) =
    ((w : AudioLevelWatch) → audio_level_watch rule ≡ ok (some w) → has_watch ws w ≡ true)
    × IsCovered ws rules

same_watch_self : (w : AudioLevelWatch) → same_watch w w ≡ true
unfolding same_watch same_number
same_watch_self w = ground (arith, eq_iff w.bus w.bus)

has_watch-append :
    (xs ys : List AudioLevelWatch) (w : AudioLevelWatch)
    → has_watch (xs ++ ys) w ≡ (has_watch xs w || has_watch ys w)
has_watch-append [] ys w = refl
has_watch-append (x ∷ xs) ys w = ground (arith, has_watch-append xs ys w)

IsDistinct-append :
    (before ws : List AudioLevelWatch) (w : AudioLevelWatch)
    → IsDistinct before ws
    → has_watch (before ++ ws) w ≡ false
    → IsDistinct before (ws ++ (w ∷ []))
IsDistinct-append before [] w d h = (ground (arith, has_watch-append before [] w), tt)
IsDistinct-append before (x ∷ ws) w (n, d) h = (
  n,
  IsDistinct-append (before ++ (x ∷ [])) ws w d (
      ground (
        arith,
        has_watch-append before (x ∷ ws) w,
        has_watch-append (before ++ (x ∷ [])) ws w,
        has_watch-append before (x ∷ []) w,
      )),
)

-- What the loop has so far, and what it adds.
record IsCollected (rules : List AutomationRule)
    (so_far out : List AudioLevelWatch × List ParamError) : Type 0 where
  distinct : IsDistinct [] so_far.0 → IsDistinct [] out.0
  keeps : (w : AudioLevelWatch) → has_watch so_far.0 w ≡ true → has_watch out.0 w ≡ true
  covers : IsCovered out.0 rules
  refuses : out.1 ≡ so_far.1 ++ refusals rules

add_watch-IsDistinct :
    (ws : List AudioLevelWatch) (es : List ParamError)
    (r : Result ParamError (Option AudioLevelWatch))
    → IsDistinct [] ws
    → IsDistinct [] (add_watch (ws, es) r).0
add_watch-IsDistinct ws es (err e) d = d
add_watch-IsDistinct ws es (ok none) d = d
add_watch-IsDistinct ws es (ok (some w)) d = elim (Bool-cases (has_watch ws w)) [
  | inl old ↦ rw old d
  | inr new ↦ rw new (IsDistinct-append [] ws w d new)
]

add_watch_keeps :
    (ws : List AudioLevelWatch) (es : List ParamError)
    (r : Result ParamError (Option AudioLevelWatch)) (w : AudioLevelWatch)
    → has_watch ws w ≡ true
    → has_watch (add_watch (ws, es) r).0 w ≡ true
add_watch_keeps ws es (err e) w h = h
add_watch_keeps ws es (ok none) w h = h
add_watch_keeps ws es (ok (some x)) w h = ground (arith, has_watch-append ws (x ∷ []) w)

add_watch_adds :
    (ws : List AudioLevelWatch) (es : List ParamError) (w : AudioLevelWatch)
    → has_watch (add_watch (ws, es) (ok (some w))).0 w ≡ true
add_watch_adds ws es w = ground (arith, has_watch-append ws (w ∷ []) w, same_watch_self w)

add_watch_refuses :
    (ws : List AudioLevelWatch) (es rest : List ParamError)
    (r : Result ParamError (Option AudioLevelWatch))
    → (add_watch (ws, es) r).1 ++ rest ≡ es ++ elim r [ ok o ↦ rest | err e ↦ e ∷ rest ]
add_watch_refuses ws es rest (err e) = append_assoc es (e ∷ []) rest
add_watch_refuses ws es rest (ok none) = refl
add_watch_refuses ws es rest (ok (some w)) = refl

watches_from-IsCollected :
    (ws : List AudioLevelWatch) (es : List ParamError) (rules : List AutomationRule)
    → IsCollected rules (ws, es) (watches_from (ws, es) rules)
unfolding watches_from
watches_from-IsCollected ws es [] = record {
  distinct = λ d. d;
  keeps = λ w h. h;
  covers = tt;
  refuses = sym (append-nil es);
}
watches_from-IsCollected ws es (rule ∷ rules) =
    let r = audio_level_watch rule in
    let (ws', es') = add_watch (ws, es) r in
    let later = watches_from-IsCollected ws' es' rules in
    record {
      distinct = λ d. later.distinct (add_watch-IsDistinct ws es r d);
      keeps = λ w h. later.keeps w (add_watch_keeps ws es r w h);
      covers = (
        λ w e. later.keeps w (
            subst (λ q. has_watch (add_watch (ws, es) q).0 w ≡ true) (sym e)
              (add_watch_adds ws es w)),
        later.covers,
      );
      refuses = later.refuses ∙ add_watch_refuses ws es (refusals rules) r;
    }

-- The list of watches has no two that are the same, and has the watch of every rule that asks for one; the errors are
-- those of the rules whose parameters were refused, in the rules' order.
pub audio_level_watches-IsDistinct :
    (rules : List AutomationRule)
    → let (ws, es) = audio_level_watches rules in
      IsDistinct [] ws × IsCovered ws rules × (es ≡ refusals rules)
unfolding audio_level_watches
audio_level_watches-IsDistinct rules =
    let c = watches_from-IsCollected [] [] rules in (c.distinct tt, c.covers, c.refuses)
