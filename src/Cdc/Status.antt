-- ===== src/Cdc/Status.antt =====
-- The status of `classify` in tools/cdc_checker/synchronizers.py and the exit code of `run_checker`.
use mind.Prelude.{
  String, List, [], ◌∷◌, ◌++◌, map, All, All-append, ◌≡◌, refl, ap, ◌↔◌, ◌⊎◌, inl, inr, arith,
}
use mind.Cdc.Netlist.{Module}
use mind.Cdc.Domains.{DomainMap}
use mind.Cdc.Crossings.{Analysis, sort_hits}
use mind.Cdc.Synchronizers.{
  Severity, error, inconclusive, ok, Status, pass, fail, inconclusive_status, ClassifiedCrossing,
  raise_status, fold_status, fold_unknown, unknown_crossing, known_crossings, classify,
}

abbrev pub IsOk : ClassifiedCrossing → Type 0
IsOk c = c.severity ≡ ok

-- The first crossing that is not ok is an error.
abbrev pub FailsFirst : List ClassifiedCrossing → Type 0
FailsFirst cs =
    (before : List ClassifiedCrossing) × (c : ClassifiedCrossing) × (after : List
      ClassifiedCrossing)
    × (cs ≡ before ++ c ∷ after)
    × All IsOk before
    × (c.severity ≡ error)

Severity-cases : (s : Severity) → (s ≡ error) ⊎ (s ≡ inconclusive) ⊎ (s ≡ ok)
Severity-cases error = inl refl
Severity-cases inconclusive = inr (inl refl)
Severity-cases ok = inr (inr refl)

fold_status-fail : (cs : List ClassifiedCrossing) → fold_status cs fail ≡ fail
unfolding fold_status raise_status
fold_status-fail [] = refl
fold_status-fail (c ∷ cs) = elim (Severity-cases c.severity) [
  | inl p ↦ rw p (fold_status-fail cs)
  | inr (inl p) ↦ rw p (fold_status-fail cs)
  | inr (inr p) ↦ rw p (fold_status-fail cs)
]

fold_status-inconclusive :
    (cs : List ClassifiedCrossing) → fold_status cs inconclusive_status ≡ inconclusive_status
unfolding fold_status raise_status
fold_status-inconclusive [] = refl
fold_status-inconclusive (c ∷ cs) = elim (Severity-cases c.severity) [
  | inl p ↦ rw p (fold_status-inconclusive cs)
  | inr (inl p) ↦ rw p (fold_status-inconclusive cs)
  | inr (inr p) ↦ rw p (fold_status-inconclusive cs)
]

fold_status-pass : (cs : List ClassifiedCrossing) → (fold_status cs pass ≡ pass) ↔ All IsOk cs
unfolding fold_status raise_status
fold_status-pass [] = (λ h. tt, λ h. refl)
fold_status-pass (c ∷ cs) =
    let ih = fold_status-pass cs in
    elim (Severity-cases c.severity) [
      | inl p ↦ (λ h. absurd (ground (arith, fold_status-fail cs)), λ h. absurd (cc h.0))
      | inr (inl p) ↦
          (λ h. absurd (ground (arith, fold_status-inconclusive cs)), λ h. absurd (cc h.0))
      | inr (inr p) ↦ (λ h. (p, ih.0 (rw p at h)), λ h. rw p (ih.1 h.1))
    ]

fold_status-fail_iff : (cs : List ClassifiedCrossing) → (fold_status cs pass ≡ fail) ↔ FailsFirst cs
unfolding fold_status raise_status
fold_status-fail_iff [] =
    (λ h. absurd (cc), λ f. let (b, c, a, e, k, s) = f in absurd (middle b c a e))
  where
    middle :
        (b : List ClassifiedCrossing) (c : ClassifiedCrossing) (a : List ClassifiedCrossing)
        → [] ≡ b ++ c ∷ a
        → ⊥
    middle [] c a e = cc
    middle (x ∷ b) c a e = cc
fold_status-fail_iff (c ∷ cs) =
    let ih = fold_status-fail_iff cs in
    elim (Severity-cases c.severity) [
      | inl p ↦ (λ h. ([], c, cs, refl, tt, p), λ f. rw p (fold_status-fail cs))
      | inr (inl p) ↦ (
        λ h. absurd (ground (arith, fold_status-inconclusive cs)),
        λ (b, x, a, e, k, s). absurd (not_first b x a e k s p),
      )
      | inr (inr p) ↦ (
        λ h.
            let (b, x, a, e, k, s) = ih.0 (rw p at h) in
            (c ∷ b, x, a, ap (λ l. c ∷ l) e, (p, k), s),
        λ (b, x, a, e, k, s). rw p (ih.1 (shorter b x a e k s p)),
      )
    ]
  where
    not_first :
        (b : List ClassifiedCrossing) (x : ClassifiedCrossing) (a : List ClassifiedCrossing)
        → c ∷ cs ≡ b ++ x ∷ a
        → All IsOk b
        → x.severity ≡ error
        → c.severity ≡ inconclusive
        → ⊥
    not_first [] x a e k s p = let q : c ≡ x = cc in absurd (cc)
    not_first (y ∷ b) x a e k s p = let q : c ≡ y = cc in let r = k.0 in absurd (cc)

    shorter :
        (b : List ClassifiedCrossing) (x : ClassifiedCrossing) (a : List ClassifiedCrossing)
        → c ∷ cs ≡ b ++ x ∷ a
        → All IsOk b
        → x.severity ≡ error
        → c.severity ≡ ok
        → FailsFirst cs
    shorter [] x a e k s p = let q : c ≡ x = cc in absurd (cc)
    shorter (y ∷ b) x a e k s p = (b, x, a, cc, k.1, s)

fold_unknown-pass :
    (hs : List (String × String)) (s : Status)
    → (fold_unknown hs s ≡ pass) ↔ ((hs ≡ []) × (s ≡ pass))
unfolding fold_unknown
fold_unknown-pass [] s = (λ h. (refl, h), λ h. h.1)
fold_unknown-pass (h ∷ hs) pass = (
  λ e. let q = (fold_unknown-pass hs inconclusive_status).0 e in absurd (cc q.1),
  λ q. absurd (cc q.0),
)
fold_unknown-pass (h ∷ hs) fail =
    (λ e. let q = (fold_unknown-pass hs fail).0 e in absurd (cc q.1), λ q. absurd (cc q.0))
fold_unknown-pass (h ∷ hs) inconclusive_status = (
  λ e. let q = (fold_unknown-pass hs inconclusive_status).0 e in absurd (cc q.1),
  λ q. absurd (cc q.0),
)

fold_unknown-fail :
    (hs : List (String × String)) (s : Status) → (fold_unknown hs s ≡ fail) ↔ (s ≡ fail)
unfolding fold_unknown
fold_unknown-fail [] s = (λ h. h, λ h. h)
fold_unknown-fail (h ∷ hs) pass =
    (λ e. absurd (ground (arith, (fold_unknown-fail hs inconclusive_status).0 e)), λ q. absurd (cc))
fold_unknown-fail (h ∷ hs) fail = (λ e. refl, λ q. (fold_unknown-fail hs fail).1 refl)
fold_unknown-fail (h ∷ hs) inconclusive_status =
    (λ e. absurd (ground (arith, (fold_unknown-fail hs inconclusive_status).0 e)), λ q. absurd (cc))

module _ (m : Module) (dm : DomainMap) (a : Analysis) where
  pub classify-pass :
      (classify m dm a).status ≡ pass
      → (sort_hits a.unknown_hits ≡ []) × All IsOk (known_crossings m dm a)
  unfolding classify
  classify-pass h =
      let (n, p) =
        (fold_unknown-pass (sort_hits a.unknown_hits) (fold_status (known_crossings m dm a) pass)).0
          h in
      (n, (fold_status-pass (known_crossings m dm a)).0 p)

  -- The status is PASS exactly where every crossing of the verdict is ok.
  pub classify-pass_iff : ((classify m dm a).status ≡ pass) ↔ All IsOk (classify m dm a).crossings
  unfolding classify unknown_crossing
  classify-pass_iff = (
    λ h.
        let (n, k) = classify-pass h in
        All-append IsOk (known_crossings m dm a)
          (map (unknown_crossing dm) (sort_hits a.unknown_hits)) k (rw n tt),
    λ k.
        let (l, r) =
          All-split (known_crossings m dm a) (map (unknown_crossing dm) (sort_hits a.unknown_hits))
            k in
        (fold_unknown-pass (sort_hits a.unknown_hits) (fold_status (known_crossings m dm a) pass)).1
          (none_ok (sort_hits a.unknown_hits) r, (fold_status-pass (known_crossings m dm a)).1 l),
  )
    where
      All-split :
          (xs ys : List ClassifiedCrossing) → All IsOk (xs ++ ys) → All IsOk xs × All IsOk ys
      All-split [] ys k = (tt, k)
      All-split (x ∷ xs) ys k = let (l, r) = All-split xs ys k.1 in ((k.0, l), r)

      none_ok : (hs : List (String × String)) → All IsOk (map (unknown_crossing dm) hs) → hs ≡ []
      none_ok [] k = refl
      none_ok ((d, s) ∷ hs) k = let q = k.0 in absurd (cc)

  -- The status is FAIL exactly where the first crossing that is not ok is an error.
  pub classify-fail_iff : ((classify m dm a).status ≡ fail) ↔ FailsFirst (known_crossings m dm a)
  unfolding classify
  classify-fail_iff =
      let f = fold_status-fail_iff (known_crossings m dm a) in
      let u =
        fold_unknown-fail (sort_hits a.unknown_hits) (fold_status (known_crossings m dm a) pass) in
      (λ h. f.0 (u.0 h), λ h. u.1 (f.1 h))
