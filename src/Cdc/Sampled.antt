-- ===== src/Cdc/Sampled.antt =====
-- What the analysis of tools/cdc_checker/crossings.py lists of the signals that a flop samples.
use mathlib.Core.List.{Memᴰ}
use mathlib.Core.List.Memᴰ
use mathlib.Core.List.Memᴰ.{head}
use mind.Prelude.{
  ℕ, suc, ◌+◌, String, false, List, [], ◌∷◌, length, none, some, ◌≡◌, refl, sym, ap, ◌∙◌, ◌≢◌,
  arith,
}
use mind.Prelude.Names.{has, mem-flat_map, flat_map-mem}
use mind.Cdc.Netlist.{Assign, Module, build_drivers, seq_drivers}
use mind.Cdc.Domains.{Domain, DomainMap, domain_of}
use mind.Cdc.Crossings.{
  RawCrossing, Event, crossing, hit, trace_cone, cone_of, flop_events, events, crossings_of,
  hits_of, sort_hits, analyze,
}
use mind.Cdc.Synchronizers.{pass, classify}
use mind.Cdc.Weight.{weight-le-total, total-one}
use mind.Cdc.Complete.{Walk, Reports, trace_cone-Reports}
use mind.Cdc.Into.{trace_cone-IsInto}
use mind.Cdc.Listed.{events-mem, crossings_of-mem, mem-hits_of, unique-mem, sort_hits-filled}
use mind.Cdc.Status.{classify-pass}

-- A driver of the flop samples the signal through combinational logic that leaves the flop out.
abbrev pub Samples : Module → Assign → String → Type 0
Samples m a source = (y : String) × Memᴰ y a.rhs_ids × Walk (build_drivers m) (a.lhs ∷ []) source y

module _ (m : Module) (dm : DomainMap) where
  -- What every visit of a sampled signal reports is among the events of the analysis.
  pub sampled-Reports :
      (Q : Event → Type 0) (a : Assign) (d source : String)
      → Memᴰ a (seq_drivers m)
      → domain_of dm a.lhs ≡ some d
      → Samples m a source
      → ((fuel : ℕ) (path : List String)
          → has source path ≡ false
          → Reports Q (trace_cone (cone_of m dm a.lhs d) (suc fuel) path source))
      → Reports Q (events m dm)
  unfolding flop_events cone_of
  sampled-Reports Q a d source k p (y, r, w) visit =
      let c = cone_of m dm a.lhs d in
      let n = length (build_drivers m) in
      let b = weight-le-total (λ e. 1) (build_drivers m) (a.lhs ∷ []) in
      let (e, l, q) =
        trace_cone-Reports c Q source visit (n + 1) (a.lhs ∷ []) y w
          (omega (arith, b, total-one (build_drivers m))) in
      (
        e,
        events-mem m dm a d e k p
            (mem-flat_map (trace_cone c (n + 1) (a.lhs ∷ [])) y e a.rhs_ids r l),
        q,
      )

  -- A passing verdict has no unknown hit.
  pub passed-no_hit :
      (d s : String)
      → (classify m dm (analyze m dm)).status ≡ pass
      → Memᴰ (hit d s) (events m dm)
      → ⊥
  unfolding analyze
  passed-no_hit d s h k =
      let hits = hits_of (events m dm) in
      let empty = (classify-pass m dm (analyze m dm) h).0 in
      filled (sort_hits hits) empty (sort_hits-filled (d, s) hits (mem-hits_of d s (events m dm) k))
    where
      filled : (hs : List (String × String)) → sort_hits hs ≡ [] → hs ≢ [] → ⊥
      filled [] e n = n refl
      filled (x ∷ xs) e n = sort_hits-filled x (x ∷ xs) (head refl) e

  -- Each crossing of the analysis is into the domain of its flop.
  pub analyze-domain :
      (x : RawCrossing) → Memᴰ x (analyze m dm).crossings → domain_of dm x.dest ≡ some x.dest_domain
  unfolding analyze events cone_of
  analyze-domain x k =
      let at = crossings_of-mem x (events m dm) (unique-mem x [] (crossings_of (events m dm)) k) in
      let (a, l, r) =
        flat_map-mem (λ b. flop_events m dm (domain_of dm b.lhs) b) (crossing x) (seq_drivers m)
          at in
      into a (domain_of dm a.lhs) refl r
    where
      into :
          (a : Assign) (d : Domain)
          → domain_of dm a.lhs ≡ d
          → Memᴰ (crossing x) (flop_events m dm d a)
          → domain_of dm x.dest ≡ some x.dest_domain
      into a none p r = absurd (cc (Memᴰ.eq_of_singleton r))
      into a (some d) p r =
          let c = cone_of m dm a.lhs d in
          let trace = trace_cone c (length (build_drivers m) + 1) (a.lhs ∷ []) in
          let (y, l, t) = flat_map-mem trace (crossing x) a.rhs_ids r in
          let (e, f) =
            trace_cone-IsInto c (length (build_drivers m) + 1) (a.lhs ∷ []) y (crossing x) t in
          ap (domain_of dm) e ∙ p ∙ ap some (sym f)
