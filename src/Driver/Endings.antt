-- ===== src/Driver/Endings.antt =====
-- How PhaseDriver.run of src/mind3/core/driver.py ends, for every model, executor and verifier.
use text.Mathlib.Text.{◌==◌}
use mind.Prelude.{
  ℕ, zero, suc, ◌+◌, ◌<◌, String, true, false, List, ◌≡◌, ◌≢◌, refl, sym, ◌∙◌, ap, ◌⊎◌, inl, inr,
  Option, some, ltb, arith, subst,
}
use mind.Driver.Trace.{trace, Crypto}
use mind.Driver.Snapshot.{
  Files, Snapshot, absent, stored, not_directory, restored, find, restore_snapshot,
}
use mind.Driver.Host.{Host, Message, Result, ok, raised, IsGuarded}
use mind.Driver.State.{Config, Driver, returned, Turn, again, finished, next_turn, retry}
use mind.Driver.Lifecycle.{
  run_turn, after_query, after_turn, repair_loop, route_phase, snapshot_phase, open_session, run,
}
use mind.Driver.Rules.{OfTurn, turn_rule, after_turn_rule, loop_rule, is_early, Counts}
use mind.Driver.Frame.{last_phase, emit-world, emit-workspace, emit-snapshot, emit-turn}
use mind.Driver.Rollback.{IsDirectory, restore-create_snapshot}
use mind.Driver.Outcome.{
  FailedEarly, Kept, Outcome, verified, rolled_back, left_as_is, without_snapshot, half_restored,
  without_verdict, not_started,
}
use mind.Driver.Judgement.{Next, Ended, outcome_rules}

module _ {W : Type 0} (k : Crypto) (c : Config) (h : Host W) (start : Driver W) where
  -- Between two turns.
  abbrev pub Between : Driver W → Type 0
  Between d =
      Kept h start d × ((d.ledger.turn < c.max_repairs) ⊎ FailedEarly d ⊎ (c.max_repairs ≡ 0))

  Next→Between :
      (d : Driver W) (t : Turn W)
      → OfTurn (Next k c h start d.ledger.turn) (Ended k c h start) t
      → OfTurn (λ e. Between e × Counts k c h d e) (Ended k c h start) t
  Next→Between d (again e f) (s, n, inl b) = ((s, inl (omega arith)), n)
  Next→Between d (again e f) (s, n, inr b) = ((s, inr (inl b)), n)
  Next→Between d (finished e x) o = o

  pub loop-Ended :
      (instruction prompt : String) (feedback : Option String) (d : Driver W)
      → d.ledger.turn ≡ 0
      → Between d
      → let (e, ending) = repair_loop k c h (c.max_repairs + 1) instruction prompt feedback d in
        Ended k c h start e ending
  loop-Ended instruction prompt feedback d z b =
      loop_rule k c h Between (Ended k c h start) instruction prompt
        (λ f e i l. Next→Between e _ (
          turn_rule k c h (outcome_rules k c h start e.ledger.turn) instruction prompt f e
            (i.0, refl)))
        (λ e i l. left_as_is refl i.0 l (elim i.1 [ inl a ↦ absurd (omega arith) | inr r ↦ r ]))
        (c.max_repairs + 1) feedback d (omega arith) (omega arith) b

  -- The snapshot is made of the workspace that the run starts with.
  snapshot-Opened :
      (s : Snapshot) (d : Driver W)
      → d.snapshot ≡ s
      → start.snapshot ≡ s
      → d.workspace ≡ start.workspace
      → d.world ≡ start.world
      → d.ledger.turn ≡ 0
      → OfTurn
          (λ e. Kept h start e × (e.ledger.turn ≡ 0))
          (Ended k c h start)
          (snapshot_phase k c h s d)
  unfolding snapshot_phase
  snapshot-Opened absent d p q w x t = (λ g. simp emit-snapshot (cc w), emit-turn k _ _ _ ∙ t)
  snapshot-Opened (stored files) d p q w x t =
      (λ g. simp emit-snapshot (cc w), emit-turn k _ _ _ ∙ t)
  snapshot-Opened not_directory d p q w x t = not_started refl q p w x

  route-kept :
      (prompt : String) (d : Driver W)
      → let e = route_phase k c h prompt d in
        (e.snapshot ≡ d.snapshot)
        × (e.workspace ≡ d.workspace)
        × (e.world ≡ d.world)
        × (e.ledger.turn ≡ 0)
  unfolding route_phase
  route-kept prompt d = (simp emit-snapshot, simp emit-workspace, simp emit-world, simp emit-turn)

  open_session-Opened :
      (prompt : String)
      → OfTurn
          (λ e. Kept h start e × (e.ledger.turn ≡ 0))
          (Ended k c h start)
          (open_session k c h prompt start)
  unfolding open_session
  open_session-Opened prompt =
      let (s, f, w, t) = route-kept prompt start in snapshot-Opened _ _ refl (sym s) f w t

restored-injective : {a b : Files} → restored a ≡ restored b → a ≡ b
restored-injective e = cc

zero-or-pos : (n : ℕ) → (n ≡ 0) ⊎ (0 < n)
zero-or-pos zero = inl refl
zero-or-pos (suc n) = inr (omega arith)

-- If transcript.jsonl can be written and files can be copied, every run ends, in one of seven ways.
-- It returns true with the last verification passed on the workspace that it leaves, the snapshot
-- purged, and the label SILICON_VERIFIED or VERIFIED_SUCCESS by that verification's verdict as the
-- final status. Or it returns false with the last verification failed, the workspace restored from
-- what then stood at the snapshot's path, and the final status ABORTED_NON_REPAIRABLE or
-- ROLLED_BACK by the failure's category. Or it returns false with the budget used up, where the
-- last turn failed before it was verified or the budget is 0. Or an exception leaves it: behind a
-- failed verification the RuntimeError of a missing snapshot, with the workspace as the verifier
-- left it, or the error of an item in the way, which leaves the workspace half restored, both with
-- no phase traced behind VERIFY; the exception of the verifier; or, before the first turn, the
-- error of an old snapshot that is no directory, with the workspace as it was. If no action and no
-- verification changes the snapshot, the snapshot of a run that is rolled back, left, or half
-- restored is that of the start.
pub run-Outcome :
    {W : Type 0} (k : Crypto) (c : Config) (h : Host W) (prompt : String) (d : Driver W)
    → Outcome c h d (run k c h prompt d).0 (run k c h prompt d).1
unfolding run
run-Outcome k c h prompt d =
    after_turn_rule _ (λ e. Kept h d e × (e.ledger.turn ≡ 0)) (Ended k c h d)
      (open_session k c h prompt d) (open_session-Opened k c h d prompt)
      (λ f e s. loop-Ended k c h d _ prompt f e s.1 (
        s.0,
        elim (zero-or-pos c.max_repairs) [ inl z ↦ inr (inr z) | inr p ↦ inl (omega (arith, s.1)) ],
      ))

-- A run that returns false and traced its end leaves, at every name but `.mind`, what the workspace
-- held at the start, if no action and no verification changes the snapshot, the budget is not 0 and no
-- name stood twice.
pub run-restores :
    {W : Type 0} (k : Crypto) (c : Config) (h : Host W) (prompt : String) (d : Driver W)
    → IsGuarded h
    → 0 < c.max_repairs
    → IsDirectory d.workspace
    → (run k c h prompt d).1 ≡ returned false
    → last_phase (run k c h prompt d).0 ≡ some trace
    → (j : String) → (j == ".mind") ≡ false
    → find j (run k c h prompt d).0.workspace ≡ find j d.workspace
run-restores k c h prompt d g b w r l j m = elim (run-Outcome k c h prompt d) [
  | verified e prev before after x v q p s t f ↦ cc
  | rolled_back e prev later before x v q p s o t f ↦
      let (back, i, i') = restore-create_snapshot d.workspace later w in
      let same : (run k c h prompt d).0.workspace ≡ back =
        restored-injective (sym o ∙ ap (λ z. restore_snapshot z later) (s g) ∙ i) in
      rw same (i' j ∙ rw m)
  | left_as_is e s t f ↦ elim f [
    | inl (phase, y, z) ↦
        let same : trace ≡ phase = cc in
        let bad : is_early trace ≡ true = subst (λ p. is_early p ≡ true) (sym same) z in cc
    | inr z ↦ absurd (omega arith)
  ]
  | without_snapshot e prev before x v q p s o t ↦ cc
  | half_restored e prev later before x v q p s o t ↦ cc
  | without_verdict exc e prev before x q ↦ cc
  | not_started e p q x y ↦ cc
]

ok-ne-raised : {a e : String} → ok a ≢ raised e
ok-ne-raised p = cc

module _ {W : Type 0} (k : Crypto) (c : Config) (h : Host W) where
  -- A turn that asks for another one with its workspace and its snapshot as they were.
  abbrev Keeps : Driver W → Turn W → Type 0
  Keeps d t =
      (d' : Driver W) × (f : Option String) × (t ≡ again d' f)
      × (d'.ledger.turn ≡ d.ledger.turn + 1)
      × (d'.workspace ≡ d.workspace)
      × (d'.snapshot ≡ d.snapshot)

  query_failed :
      (d : Driver W) (r : Result String) {exc : String}
      → r ≡ raised exc
      → Keeps d (after_query k c h r d)
  unfolding after_query retry next_turn
  query_failed d (ok raw) e = absurd (ok-ne-raised e)
  query_failed d (raised exc) e = (
    _,
    _,
    refl,
    ap (λ n. n + 1) (emit-turn k _ _ d),
    emit-workspace k _ _ d,
    emit-snapshot k _ _ d,
  )

  query_fails :
      (d : Driver W) (instruction prompt : String) (feedback : Option String) {exc : String}
      → ((ms : List Message) (w : W) → (h.query_model ms w).1 ≡ raised exc)
      → Keeps d (run_turn k c h instruction prompt feedback d)
  unfolding run_turn
  query_fails d instruction prompt feedback q = query_failed _ _ (q _ _)

-- If the model call fails in the last turn of the budget, the loop returns false and leaves the
-- workspace as the turns before left it, with the snapshot unused: nothing is restored.
pub repair_loop-unrestored :
    {W : Type 0} (k : Crypto) (c : Config) (h : Host W) (instruction prompt : String) (fuel : ℕ)
    (feedback : Option String) (d : Driver W) {exc : String}
    → d.ledger.turn + 1 ≡ c.max_repairs
    → ((ms : List Message) (w : W) → (h.query_model ms w).1 ≡ raised exc)
    → let (e, ending) = repair_loop k c h (suc (suc fuel)) instruction prompt feedback d in
      (ending ≡ returned false) × (e.workspace ≡ d.workspace) × (e.snapshot ≡ d.snapshot)
unfolding repair_loop after_turn
repair_loop-unrestored k c h instruction prompt fuel feedback d b q =
    let (d', f, e, t, ws, s) = query_fails k c h d instruction prompt feedback q in
    let below : ltb d.ledger.turn c.max_repairs ≡ true = ground arith in
    let spent : ltb d'.ledger.turn c.max_repairs ≡ false = ground arith in
    simp (below, e, spent) (refl, ws, s)
