-- ===== src/Cdc/Cone.antt =====
-- The combinational cone of tools/cdc_checker/crossings.py is the set of the endpoints that feed the seeds.
use mathlib.Core.List.{Memᴰ}
use mathlib.Core.List.Memᴰ
use mathlib.Core.List.Memᴰ.{head, tail, cases_cons}
use mind.Prelude.{
  ℕ, zero, suc, ◌+◌, ◌≤◌, ◌<◌, String, false, List, [], ◌∷◌, length, ◌≡◌, refl, sym, ap, subst, ◌↔◌,
  ◌⊎◌, inl, inr, Bool-cases, arith,
}
use mind.Prelude.Names.{has, has_iff}
use mind.Cdc.Netlist.{
  Module, Driver, build_drivers, edges_of, Search, extend, expand, visit, cone_step, cone_loop,
  table_size, comb_cone,
}
use mind.Cdc.Weight.{weight, weight-visit, weight-le-total, total-rhs}
use mind.Cdc.Reach.{
  Feeds, Clocked, IsEndpoint, Reached, seed, step, mem-add, mem-extend, length-extend,
  scan_edges-Scanned,
}

List-cases {ℓ} :
    {A : Type ℓ} (xs : List A) → (xs ≡ []) ⊎ ((x : A) × (rest : List A) × (xs ≡ x ∷ rest))
List-cases [] = inl refl
List-cases (x ∷ xs) = inr (x, xs, refl)

-- The right-hand sides that the visits still to come push.
abbrev rest_of : List Driver → List String → ℕ
rest_of = weight (λ d. length d.rhs)

module _ (drivers : List Driver) (seeds : List String) where
  -- What holds at each round of the loop.
  record Inv (s : Search) : Type 0 where
    pending : (x : String) → Memᴰ x s.stack → Reached drivers seeds x
    done : (x : String) → Memᴰ x s.visited → Reached drivers seeds x
    found : (x : String) → Memᴰ x s.found ↔ (Memᴰ x s.visited × IsEndpoint drivers x)
    start : (x : String) → Memᴰ x seeds → Memᴰ x s.visited ⊎ Memᴰ x s.stack
    closed :
        (u v : String)
        → Memᴰ u s.visited
        → Feeds (edges_of drivers u) v
        → Memᴰ v s.visited ⊎ Memᴰ v s.stack

  -- A node that waits on the stack or has been visited, where a visited one is popped.
  popped :
      {x node : String} {rest visited : List String}
      → Memᴰ node visited
      → Memᴰ x visited ⊎ Memᴰ x (node ∷ rest)
      → Memᴰ x visited ⊎ Memᴰ x rest
  popped v (inl k) = inl k
  popped {visited = vs} v (inr k) = elim (cases_cons k) [
    | inl e ↦ inl (subst (λ z. Memᴰ z vs) (sym e) v)
    | inr l ↦ inr l
  ]

  Inv-skip :
      (s : Search) (node : String) (rest : List String)
      → s.stack ≡ node ∷ rest
      → Memᴰ node s.visited
      → Inv s
      → Inv (record s { stack = rest })
  Inv-skip s node rest e v h = record {
    pending = λ x m. h.pending x (rw e (tail m));
    done = h.done;
    found = h.found;
    start = λ x m. popped v (rw e at (h.start x m));
    closed = λ x y m f. popped v (rw e at (h.closed x y m f));
  }

  Expanded : String → List Driver → Search → Search → Type 0
  Expanded node ds s t =
      (t.visited ≡ s.visited)
      × ((x : String) → Memᴰ x t.found ↔ (Memᴰ x s.found ⊎ (x ≡ node) × ((ds ≡ []) ⊎ Clocked ds)))
      × ((x : String) → Memᴰ x t.stack ↔ (Feeds ds x ⊎ Memᴰ x s.stack))
      × (length t.stack ≤ length s.stack + table_size ds)

  expand-Expanded :
      (node : String) (ds : List Driver) (s : Search) → Expanded node ds s (expand node ds s)
  unfolding Expanded expand table_size
  expand-Expanded node [] s = (
    refl,
    λ x. (
      λ m. elim ((mem-add x node s.found).0 m) [ inl k ↦ inl k | inr e ↦ inr (e, inl refl) ],
      λ h. (mem-add x node s.found).1 (elim h [ inl k ↦ inl k | inr (e, c) ↦ inr e ]),
    ),
    λ x. (inr, λ h. elim h [ inr m ↦ m | inl f ↦ elim f.1 [ ] ]),
    omega arith,
  )
  expand-Expanded node (d ∷ ds) s =
      let t = scan_edges-Scanned node (d ∷ ds) s in
      (
        t.visited,
        λ x. (
          λ m. elim ((t.found x).0 m) [ inl k ↦ inl k | inr (e, c) ↦ inr (e, inr c) ],
          λ h. (t.found x).1 (elim h [
            | inl k ↦ inl k
            | inr (e, c) ↦ elim c [ inl n ↦ absurd (cc) | inr c' ↦ inr (e, c') ]
          ]),
        ),
        t.stack,
        t.room,
      )

  module _ {s : Search} (t : Search) {node : String} {rest : List String}
      (e : s.stack ≡ node ∷ rest) (h : Inv s)
      (x : Expanded node
        (edges_of drivers node)
        (record s { stack = rest; visited = node ∷ s.visited })
        t) where
    -- What waited before the visit waits still, or has been visited.
    waits : {v : String} → Memᴰ v s.visited ⊎ Memᴰ v s.stack → Memᴰ v t.visited ⊎ Memᴰ v t.stack
    unfolding Expanded
    waits {v} (inl k) = inl (rw x.0 (tail k))
    waits {v} (inr k) = elim (cases_cons (rw e at k)) [
      | inl q ↦ inl (rw x.0 (head q))
      | inr l ↦ inr ((x.2 v).1 (inr l))
    ]

    Inv-visited : Inv t
    unfolding Expanded
    Inv-visited = record {
      pending = λ v m. elim ((x.2 v).0 m) [
        | inl f ↦ step (h.pending node (rw e (head refl))) f
        | inr k ↦ h.pending v (rw e (tail k))
      ];
      done = λ v m. elim (cases_cons (rw x.0 at m)) [
        | inl q ↦ rw q (h.pending node (rw e (head refl)))
        | inr k ↦ h.done v k
      ];
      found = λ v. (
        λ m. elim ((x.1 v).0 m) [
          | inl k ↦ let (d, p) = (h.found v).0 k in (rw x.0 (tail d), p)
          | inr (q, p) ↦ (rw x.0 (head q), rw q p)
        ],
        λ (m, p). elim (cases_cons (rw x.0 at m)) [
          | inl q ↦ (x.1 v).1 (inr (q, subst (IsEndpoint drivers) q p))
          | inr k ↦ (x.1 v).1 (inl ((h.found v).1 (k, p)))
        ],
      );
      start = λ v m. waits (h.start v m);
      closed = λ u v m f. elim (cases_cons (rw x.0 at m)) [
        | inl q ↦ inr ((x.2 v).1 (inl (subst (λ z. Feeds (edges_of drivers z) v) q f)))
        | inr k ↦ waits (h.closed u v k f)
      ];
    }

  -- Each round falls by one, so the fuel lasts until the stack is empty.
  work : Search → ℕ
  work s = length s.stack + rest_of drivers s.visited

  cone_loop-next :
      (fuel : ℕ) (s : Search) (node : String) (rest : List String)
      → s.stack ≡ node ∷ rest
      → cone_loop drivers fuel (cone_step drivers node (record s { stack = rest }))
        ≡ cone_loop drivers (suc fuel) s
  unfolding cone_loop
  cone_loop-next fuel s node rest p = rw p refl

  abbrev Ends : Search → Type 0
  Ends t = Inv t × (t.stack ≡ [])

  spent :
      (node : String) (visited : List String)
      → has node visited ≡ false
      → rest_of drivers (node ∷ visited) + table_size (edges_of drivers node)
        ≡ rest_of drivers visited
  spent node visited v =
      rw (← (total-rhs (edges_of drivers node)))
        (weight-visit (λ d. length d.rhs) drivers node visited v)

  -- A round keeps the invariant and lowers the measure.
  cone_step-Inv :
      (s : Search) (node : String) (rest : List String)
      → s.stack ≡ node ∷ rest
      → Inv s
      → let t = cone_step drivers node (record s { stack = rest }) in Inv t × (work t < work s)
  unfolding cone_step visit work Expanded
  cone_step-Inv s node rest p h = elim (Bool-cases (has node s.visited)) [
    | inl v ↦
        rw v (Inv-skip s node rest p ((has_iff node s.visited).0 v) h, omega (arith, ap length p))
    | inr v ↦
        let s1 : Search = record s { stack = rest; visited = node ∷ s.visited } in
        let x = expand-Expanded node (edges_of drivers node) s1 in
        let b : rest_of drivers (expand node (edges_of drivers node) s1).visited
            ≡ rest_of drivers (node ∷ s.visited) =
          ap (rest_of drivers) x.0 in
        rw v (
          Inv-visited (expand node (edges_of drivers node) s1) p h x,
          omega (arith, ap length p, spent node s.visited v, x.3, b),
        )
  ]

  cone_loop-Ends : (fuel : ℕ) (s : Search) → Inv s → work s ≤ fuel → Ends (cone_loop drivers fuel s)
  unfolding cone_loop work
  cone_loop-Ends zero s h w = (h, ground arith)
  cone_loop-Ends (suc fuel) s h w = elim (List-cases s.stack) [
    | inl p ↦ let e : s ≡ cone_loop drivers (suc fuel) s = rw p refl in subst Ends e (h, p)
    | inr (node, rest, p) ↦
        let (i, b) = cone_step-Inv s node rest p h in
        subst Ends (cone_loop-next fuel s node rest p) (
          cone_loop-Ends fuel (cone_step drivers node (record s { stack = rest })) i
            (omega (arith, b)))
  ]

  Inv-start : Inv (record { stack = extend seeds []; visited = []; found = [] })
  Inv-start = record {
    pending = λ x m. elim ((mem-extend x seeds []).0 m) [ inl k ↦ seed k | inr k ↦ elim k [ ] ];
    done = λ x m. elim m [ ];
    found = λ x. (λ m. elim m [ ], λ (m, p). elim m [ ]);
    start = λ x m. inr ((mem-extend x seeds []).1 (inl m));
    closed = λ u v m f. elim m [ ];
  }

  -- With an empty stack, the visited signals are closed under what feeds them.
  complete :
      (s : Search)
      → Inv s
      → s.stack ≡ []
      → (x : String) → Reached drivers seeds x
      → Memᴰ x s.visited
  complete s h e x (seed m) = elim (h.start x m) [
    | inl k ↦ k
    | inr k ↦ absurd (Memᴰ.not-nil (rw e at k))
  ]
  complete s h e x (step {u} r f) = elim (h.closed u x (complete s h e u r) f) [
    | inl k ↦ k
    | inr k ↦ absurd (Memᴰ.not-nil (rw e at k))
  ]

-- The cone of the seeds holds exactly the registers and the undriven signals that feed a seed through
-- combinational logic only.
pub comb_cone_iff :
    (m : Module) (seeds : List String) (x : String)
    → Memᴰ x (comb_cone m seeds)
      ↔ (Reached (build_drivers m) seeds x × IsEndpoint (build_drivers m) x)
unfolding comb_cone work
comb_cone_iff m seeds x =
    let ds = build_drivers m in
    let start : Search = record { stack = extend seeds []; visited = []; found = [] } in
    let (h, e) = cone_loop-Ends ds seeds (length seeds + table_size ds) start (Inv-start ds seeds) (
      omega
        (arith, length-extend seeds [], weight-le-total (λ d. length d.rhs) ds [], total-rhs ds)) in
    (
      λ k. let (v, p) = (h.found x).0 k in (h.done x v, p),
      λ (r, p). (h.found x).1 (complete ds seeds _ h e x r, p),
    )
