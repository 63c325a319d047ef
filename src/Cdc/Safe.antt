-- ===== src/Cdc/Safe.antt =====
-- What exit code 0 of tools/cdc_checker says of the design: every register that a flop samples through
-- combinational logic is of its domain or goes through a synchronizer.
use text.Mathlib.Text.{◌==◌ as str_eq}
use text.Mathlib.TextEquality.{eq_iff}
use mathlib.Core.List.{Memᴰ}
use mind.Prelude.{
  ℕ, suc, String, false, List, [], map, some, ◌≡◌, sym, ap, subst, ◌∙◌, ◌≢◌, ◌⊎◌, inl, inr,
  Bool-cases, Option-cases,
}
use mind.Prelude.Names.{has, has_iff}
use mind.Cdc.Netlist.{Assign, Module, build_drivers, edges_of, seq_drivers, comb_cone}
use mind.Cdc.Domains.{Domain, domain_of, assign_domains}
use mind.Cdc.Crossings.{hit, trace_cone, boundary_of, cone_of, events}
use mind.Cdc.Report.{loaded, run_checker, exit_pass}
use mind.Cdc.Reach.{Clocked}
use mind.Cdc.Complete.{Reports}
use mind.Cdc.Found.{visit-unknown, visit-undriven, visit-boundary}
use mind.Cdc.Listed.{events-unknown}
use mind.Cdc.Exit.{exit-pass}
use mind.Cdc.Sampled.{Samples, sampled-Reports, passed-no_hit}
use mind.Cdc.Synchronizers.{width_of}
use mind.Cdc.Chained.{IsSafe-second, IsSafe-only, crossing_of}
use mind.Cdc.Reach.{Reached}
use mind.Cdc.Cone.{comb_cone_iff}

-- The register is one bit, and some other flop of the domain has the sampling flop in its cone.
abbrev pub IsSynchronized : Module → String → String → String → Type 0
IsSynchronized m source flop d =
    (width_of m source ≡ 1)
    × ((b : Assign) × Memᴰ b (seq_drivers m)
        × (domain_of (assign_domains m) b.lhs ≡ some d)
        × (b.lhs ≢ flop)
        × Memᴰ flop (comb_cone m b.rhs_ids))

-- The domains that the checker assigns.
abbrev pub domain_in : Module → String → Domain
domain_in m x = domain_of (assign_domains m) x

module _ (m : Module) (top : String) (passed : (run_checker (loaded m) top).0 ≡ exit_pass) where
  -- No signal that a flop samples is a hit.
  no_hit :
      (a : Assign) (source d : String)
      → Memᴰ a (seq_drivers m)
      → domain_in m a.lhs ≡ some d
      → Samples m a source
      → ((fuel : ℕ) (path : List String)
          → has source path ≡ false
          → Reports
              (λ e. e ≡ hit a.lhs source)
              (trace_cone (cone_of m (assign_domains m) a.lhs d) (suc fuel) path source))
      → ⊥
  no_hit a source d k p w visit =
      let dm = assign_domains m in
      let (e, l, g) = sampled-Reports m dm (λ z. z ≡ hit a.lhs source) a d source k p w visit in
      passed-no_hit m dm a.lhs source (exit-pass m top passed)
        (subst (λ z. Memᴰ z (events m dm)) g l)

  known : (a : Assign) → Memᴰ a (seq_drivers m) → (d : String) × (domain_in m a.lhs ≡ some d)
  known a k = elim (Option-cases (domain_in m a.lhs)) [
    | inr s ↦ s
    | inl n ↦ absurd (
        passed-no_hit m (assign_domains m) a.lhs a.lhs (exit-pass m top passed)
          (events-unknown m (assign_domains m) a k n))
  ]

  known_source :
      (a : Assign) (source d : String)
      → Memᴰ a (seq_drivers m)
      → domain_in m a.lhs ≡ some d
      → Samples m a source
      → Clocked (edges_of (build_drivers m) source)
      → (e : String) × (domain_in m source ≡ some e)
  unfolding cone_of
  known_source a source d k p w c = elim (Option-cases (domain_in m source)) [
    | inr s ↦ s
    | inl n ↦
        let cone = cone_of m (assign_domains m) a.lhs d in
        absurd
          (no_hit a source d k p w (λ fuel path new. visit-unknown cone source fuel path new c n))
  ]

-- With exit code 0, each flop and each register that it samples through combinational logic has a
-- known domain, and a register of another domain is one bit wide and is synchronized: the flop is
-- sampled by another flop of its domain.
pub run_checker-IsSynchronized :
    (m : Module) (top : String) (a : Assign) (source : String)
    → (run_checker (loaded m) top).0 ≡ exit_pass
    → Memᴰ a (seq_drivers m)
    → Samples m a source
    → Clocked (edges_of (build_drivers m) source)
    → (d : String) × (e : String) × (domain_in m a.lhs ≡ some d)
      × (domain_in m source ≡ some e)
      × ((e ≡ d) ⊎ IsSynchronized m source a.lhs d)
run_checker-IsSynchronized m top a source h k w c =
    let dm = assign_domains m in
    let (d, p) = known m top h a k in
    let (e, q) = known_source m top h a source d k p w c in
    (
      d,
      e,
      p,
      q,
      elim (Bool-cases (str_eq e d)) [
        | inl s ↦ inl ((eq_iff e d).0 s)
        | inr s ↦
            let (x, safe, f, g, i) =
              crossing_of m dm a source d e (exit-pass m top h) k w c p q s in
            let (b, j, t, n, l) = IsSafe-second m dm x safe in
            inr (
              subst (λ z. width_of m z ≡ 1) f safe.single,
              (
                b,
                j,
                t ∙ ap some i,
                λ z. n (z ∙ sym g),
                subst (λ z. Memᴰ z (comb_cone m b.rhs_ids)) g l,
              ),
            )
      ],
    )

-- With exit code 0, a register of another domain feeds one flop of a domain only: any driver of that
-- domain that it feeds through combinational logic is one of the same flop.
pub run_checker-single :
    (m : Module) (top : String) (a b : Assign) (source d e : String)
    → (run_checker (loaded m) top).0 ≡ exit_pass
    → Memᴰ a (seq_drivers m)
    → Samples m a source
    → Clocked (edges_of (build_drivers m) source)
    → domain_in m a.lhs ≡ some d
    → domain_in m source ≡ some e
    → e ≢ d
    → Memᴰ b (seq_drivers m)
    → domain_in m b.lhs ≡ some d
    → Reached (build_drivers m) b.rhs_ids source
    → b.lhs ≡ a.lhs
run_checker-single m top a b source d e h k w c p q n l t r = elim (Bool-cases (str_eq e d)) [
  | inl s ↦ absurd (n ((eq_iff e d).0 s))
  | inr s ↦
      let dm = assign_domains m in
      let (x, safe, f, g, i) = crossing_of m dm a source d e (exit-pass m top h) k w c p q s in
      let cone = (comb_cone_iff m b.rhs_ids source).1 (r, inr c) in
      IsSafe-only m dm x b safe l (t ∙ ap some (sym i))
        (subst (λ z. Memᴰ z (comb_cone m b.rhs_ids)) (sym f) cone)
      ∙ g
]

-- With exit code 0, a signal that a flop samples through combinational logic is connected to no
-- instance, and is an input or another port of the module if nothing drives it.
pub run_checker-inputs :
    (m : Module) (top : String) (a : Assign) (source : String)
    → (run_checker (loaded m) top).0 ≡ exit_pass
    → Memᴰ a (seq_drivers m)
    → Samples m a source
    → (has source (boundary_of m) ≡ false)
      × ((edges_of (build_drivers m) source ≢ []) ⊎ Memᴰ source (map (λ p. p.0) m.ports))
unfolding cone_of
run_checker-inputs m top a source h k w =
    let (d, p) = known m top h a k in
    let cone = cone_of m (assign_domains m) a.lhs d in
    (
      elim (Bool-cases (has source (boundary_of m))) [
        | inr q ↦ q
        | inl q ↦ absurd (
            no_hit m top h a source d k p w (λ f path new. visit-boundary cone source f path new q))
      ],
      elim (Bool-cases (has source (map (λ p. p.0) m.ports))) [
        | inl q ↦ inr ((has_iff source (map (λ p. p.0) m.ports)).0 q)
        | inr q ↦ inl (λ z.
            no_hit m top h a source d k p w
              (λ f path new. visit-undriven cone source f path new z q))
      ],
    )
