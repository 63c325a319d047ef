-- ===== src/Cdc/Chained.antt =====
-- What a safe crossing of tools/cdc_checker/synchronizers.py says of the flops of its domain, and the safe
-- crossing behind each sampled register of another domain.
use text.Mathlib.Text.{◌==◌ as str_eq}
use text.Mathlib.TextEquality.{eq_iff}
use mathlib.Core.List.{Memᴰ}
use mathlib.Core.List.Memᴰ
use mathlib.Core.List.Memᴰ.{head}
use mind.Prelude.{
  String, true, false, not, ◌&&◌, List, [], ◌∷◌, keep, none, some, ◌≡◌, refl, sym, ap, subst, ◌∙◌,
  ◌≢◌, inl, inr, &&-true_iff, arith,
}
use mind.Prelude.Keep.{is_empty, mem-keep, keep-mem}
use mind.Prelude.Names.{has, has_iff, meets, within, within-has, flat_map-mem}
use mind.Cdc.Netlist.{Assign, Module, build_drivers, edges_of, seq_drivers, comb_cone}
use mind.Cdc.Domains.{Domain, DomainMap, domain_of, same_domain}
use mind.Cdc.Crossings.{RawCrossing, cone_of, events, crossings_of, analyze}
use mind.Cdc.Synchronizers.{pass, classify}
use mind.Cdc.Reach.{Clocked}
use mind.Cdc.Found.{IsCrossing, visit-IsCrossing}
use mind.Cdc.Listed.{mem-crossings_of, unique-ends}
use mind.Cdc.Passed.{IsSafe, passed-IsSafe}
use mind.Cdc.Sampled.{Samples, sampled-Reports, analyze-domain}
use mind.Cdc.Synchronizers.{
  consumers, domain_drivers, drivers_of, same_domain_seq, cone_union, second_stages, is_exact,
}
use mind.Cdc.Passed.{find_chain-some}

same_domain-eq : (x : Domain) (d : String) → same_domain x (some d) ≡ true → x ≡ some d
unfolding same_domain
same_domain-eq none d h = cc
same_domain-eq (some e) d h = ap some ((eq_iff e d).0 h)

module _ (m : Module) (dm : DomainMap) where
  domain_drivers-mem :
      (b : Assign) (d : String)
      → Memᴰ b (domain_drivers m dm d)
      → Memᴰ b (seq_drivers m) × (domain_of dm b.lhs ≡ some d)
  unfolding domain_drivers
  domain_drivers-mem b d k =
      let (l, h) =
        keep-mem (λ (a : Assign). same_domain (domain_of dm a.lhs) (some d)) b (seq_drivers m) k in
      (l, same_domain-eq (domain_of dm b.lhs) d h)

  mem-domain_drivers :
      (b : Assign) (d : String)
      → Memᴰ b (seq_drivers m)
      → domain_of dm b.lhs ≡ some d
      → Memᴰ b (domain_drivers m dm d)
  unfolding domain_drivers same_domain
  mem-domain_drivers b d k h =
      mem-keep (λ (a : Assign). same_domain (domain_of dm a.lhs) (some d)) b (seq_drivers m) k
        (rw h ((eq_iff d d).1 refl))

  -- A second stage is another flop of the domain that samples the first.
  second_stages-mem :
      (first d stage : String)
      → Memᴰ stage (second_stages m dm first d)
      → (b : Assign) × Memᴰ b (seq_drivers m)
        × (domain_of dm b.lhs ≡ some d)
        × (b.lhs ≢ first)
        × Memᴰ first (comb_cone m b.rhs_ids)
  unfolding second_stages cone_union drivers_of
  second_stages-mem first d stage k =
      let inner = keep (λ s. not (str_eq s first)) (same_domain_seq m d dm) in
      let test = λ (s : String).
        has first (cone_union m (drivers_of m s d dm))
        && within (cone_union m (drivers_of m s d dm)) (first ∷ same_domain_seq m d dm) in
      let (l, t) = keep-mem test stage inner k in
      let (_, n) = keep-mem (λ s. not (str_eq s first)) stage (same_domain_seq m d dm) l in
      let u = ((&&-true_iff _ _).0 t).0 in
      let (rhs, r, f) =
        flat_map-mem (comb_cone m) first (drivers_of m stage d dm)
          ((has_iff first (cone_union m (drivers_of m stage d dm))).0 u) in
      let (b, i, e) =
        Memᴰ.of_map (λ (a : Assign). a.rhs_ids)
          (keep (λ (a : Assign). str_eq a.lhs stage) (domain_drivers m dm d)) r in
      let (j, s) = keep-mem (λ (a : Assign). str_eq a.lhs stage) b (domain_drivers m dm d) i in
      let (x, p) = domain_drivers-mem b d j in
      let q = (eq_iff b.lhs stage).0 s in
      (
        b,
        x,
        p,
        λ z. ground (arith, n, (eq_iff stage first).1 (sym q ∙ z)),
        subst (λ l. Memᴰ first (comb_cone m l)) (sym e) f,
      )

  -- A safe crossing into a flop of the domain.
  pub IsSafe-second :
      (x : RawCrossing)
      → IsSafe m dm x
      → (b : Assign) × Memᴰ b (seq_drivers m)
        × (domain_of dm b.lhs ≡ some x.dest_domain)
        × (b.lhs ≢ x.dest)
        × Memᴰ x.dest (comb_cone m b.rhs_ids)
  IsSafe-second x s =
      let (e, t, n, w) =
        find_chain-some m dm x.source x.dest x.dest_domain s.stage1 s.stages s.chain in
      let (stage, k) = first_of s.stages n in second_stages-mem x.dest x.dest_domain stage (rw t k)
    where
      first_of : (xs : List String) → is_empty xs ≡ false → (y : String) × Memᴰ y xs
      first_of [] h = absurd (cc)
      first_of (y ∷ ys) h = (y, head refl)

  -- No other flop of the domain has the source of a safe crossing in its cone.
  pub IsSafe-only :
      (x : RawCrossing) (b : Assign)
      → IsSafe m dm x
      → Memᴰ b (seq_drivers m)
      → domain_of dm b.lhs ≡ some x.dest_domain
      → Memᴰ x.source (comb_cone m b.rhs_ids)
      → b.lhs ≡ x.dest
  unfolding is_exact consumers meets
  IsSafe-only x b s k h c =
      let (e, t, n, w) =
        find_chain-some m dm x.source x.dest x.dest_domain s.stage1 s.stages s.chain in
      let test = λ (a : Assign). meets (x.source ∷ []) (comb_cone m a.rhs_ids) in
      let hit_b : test b ≡ true = rw ((has_iff x.source (comb_cone m b.rhs_ids)).1 c) refl in
      let user =
        Memᴰ.map (λ (a : Assign). a.lhs)
          (mem-keep test b (domain_drivers m dm x.dest_domain)
            (mem-domain_drivers b x.dest_domain k h) hit_b) in
      let inside = ((&&-true_iff _ _).0 ((&&-true_iff _ _).0 s.exact).0).0 in
      let at =
        within-has b.lhs (consumers m dm (x.source ∷ []) x.dest_domain) (s.stage1 ∷ []) inside
          user in
      Memᴰ.eq_of_singleton at ∙ sym e

  -- The crossing that a passing verdict lists for a sampled register of another domain.
  pub crossing_of :
      (a : Assign) (source d e : String)
      → (classify m dm (analyze m dm)).status ≡ pass
      → Memᴰ a (seq_drivers m)
      → Samples m a source
      → Clocked (edges_of (build_drivers m) source)
      → domain_of dm a.lhs ≡ some d
      → domain_of dm source ≡ some e
      → str_eq e d ≡ false
      → (x : RawCrossing) × IsSafe m dm x
        × (x.source ≡ source)
        × (x.dest ≡ a.lhs)
        × (x.dest_domain ≡ d)
  unfolding analyze cone_of
  crossing_of a source d e h k w c p q n =
      let (ev, l, (x, g, s, t)) =
        sampled-Reports m dm (IsCrossing source a.lhs) a d source k p w
          (λ fuel path new. visit-IsCrossing (cone_of m dm a.lhs d) source fuel path new e c q n) in
      let listed = mem-crossings_of x (events m dm) (subst (λ z. Memᴰ z (events m dm)) g l) in
      let (y, u, v, r) = unique-ends x [] (crossings_of (events m dm)) listed in
      let kept : Memᴰ y (analyze m dm).crossings = elim u [ inl i ↦ i | inr i ↦ elim i [ ] ] in
      let f : some d ≡ some y.dest_domain =
        sym p ∙ ap (domain_of dm) (sym t ∙ sym r) ∙ analyze-domain m dm y kept in
      (y, passed-IsSafe m dm (analyze m dm) y h kept, v ∙ s, r ∙ t, cc)
