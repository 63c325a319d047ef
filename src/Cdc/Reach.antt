-- ===== src/Cdc/Reach.antt =====
-- What feeds what through combinational logic in a driver table of tools/cdc_checker/crossings.py.
use mathlib.Core.List.{Memᴰ}
use mathlib.Core.List.Memᴰ.{
  head, tail, cases_cons, append_left, append_right, append_cases, eq_of_singleton,
}
use mind.Prelude.{
  ◌+◌, ◌≤◌, String, List, [], ◌∷◌, length, ◌≡◌, refl, subst, ◌↔◌, ◌⊎◌, inl, inr, Bool-cases, arith,
}
use mind.Prelude.Names.{has, has_iff, add}
use mind.Cdc.Netlist.{Kind, seq, comb, Driver, edges_of, Search, extend, scan_edges, table_size}

-- The entries hold one that drives through combinational logic from `v`.
abbrev pub Feeds : List Driver → String → Type 0
Feeds ds v = (d : Driver) × Memᴰ d ds × (d.kind ≡ comb) × Memᴰ v d.rhs

-- The entries hold a sequential driver.
abbrev pub Clocked : List Driver → Type 0
Clocked ds = (d : Driver) × Memᴰ d ds × (d.kind ≡ seq)

-- A register or a signal that nothing drives.
abbrev pub IsEndpoint : List Driver → String → Type 0
IsEndpoint drivers x = (edges_of drivers x ≡ []) ⊎ Clocked (edges_of drivers x)

-- The signals that feed the seeds through combinational logic only.
pub data Reached (drivers : List Driver) (seeds : List String) : String → Type 0 where
  seed : {x : String} → Memᴰ x seeds → Reached drivers seeds x
  step :
      {u v : String}
      → Reached drivers seeds u
      → Feeds (edges_of drivers u) v
      → Reached drivers seeds v

pub mem-add : (x y : String) (xs : List String) → Memᴰ x (add y xs) ↔ (Memᴰ x xs ⊎ (x ≡ y))
unfolding add
mem-add x y xs = elim (Bool-cases (has y xs)) [
  | inl p ↦ rw p (inl, λ s. elim s [ inl m ↦ m | inr e ↦ rw e ((has_iff y xs).0 p) ])
  | inr p ↦ rw p (
    λ m. elim (append_cases xs m) [ inl k ↦ inl k | inr k ↦ inr (eq_of_singleton k) ],
    λ s. elim s [ inl m ↦ append_left _ m | inr e ↦ append_right xs (head e) ],
  )
]

pub mem-extend :
    (x : String) (xs stack : List String) → Memᴰ x (extend xs stack) ↔ (Memᴰ x xs ⊎ Memᴰ x stack)
unfolding extend
mem-extend x [] stack = (inr, λ s. elim s [ inl m ↦ elim m [ ] | inr m ↦ m ])
mem-extend x (y ∷ xs) stack =
    let ih = mem-extend x xs (y ∷ stack) in
    (
      λ m. elim (ih.0 m) [
        | inl k ↦ inl (tail k)
        | inr k ↦ elim (cases_cons k) [ inl e ↦ inl (head e) | inr l ↦ inr l ]
      ],
      λ s. elim s [
        | inl k ↦ elim (cases_cons k) [ inl e ↦ ih.1 (inr (head e)) | inr l ↦ ih.1 (inl l) ]
        | inr k ↦ ih.1 (inr (tail k))
      ],
    )

pub length-extend : (xs stack : List String) → length (extend xs stack) ≡ length xs + length stack
unfolding extend
length-extend [] stack = omega arith
length-extend (y ∷ xs) stack = omega (arith, length-extend xs (y ∷ stack))

-- What the loop over the edges of a node does to the state.
pub record Scanned (node : String) (ds : List Driver) (s t : Search) : Type 0 where
  pub visited : t.visited ≡ s.visited
  pub found : (x : String) → Memᴰ x t.found ↔ (Memᴰ x s.found ⊎ (x ≡ node) × Clocked ds)
  pub stack : (x : String) → Memᴰ x t.stack ↔ (Feeds ds x ⊎ Memᴰ x s.stack)
  pub room : length t.stack ≤ length s.stack + table_size ds

Clocked-cons : (d : Driver) (ds : List Driver) → Clocked (d ∷ ds) ↔ ((d.kind ≡ seq) ⊎ Clocked ds)
Clocked-cons d ds = (
  λ (e, m, k). elim (cases_cons m) [
    | inl q ↦ inl (subst (λ (z : Driver). z.kind ≡ seq) q k)
    | inr l ↦ inr (e, l, k)
  ],
  λ s. elim s [ inl k ↦ (d, head refl, k) | inr (e, l, k) ↦ (e, tail l, k) ],
)

Feeds-cons :
    (d : Driver) (ds : List Driver) (x : String)
    → Feeds (d ∷ ds) x ↔ ((d.kind ≡ comb) × Memᴰ x d.rhs ⊎ Feeds ds x)
Feeds-cons d ds x = (
  λ (e, m, k, r). elim (cases_cons m) [
    | inl q ↦ inl (subst (λ (z : Driver). (z.kind ≡ comb) × Memᴰ x z.rhs) q (k, r))
    | inr l ↦ inr (e, l, k, r)
  ],
  λ s. elim s [ inl (k, r) ↦ (d, head refl, k, r) | inr (e, l, k, r) ↦ (e, tail l, k, r) ],
)

Kind-cases : (k : Kind) → (k ≡ seq) ⊎ (k ≡ comb)
Kind-cases seq = inl refl
Kind-cases comb = inr refl

module _ {node : String} (d : Driver) {ds : List Driver} {s t : Search} where
  Scanned-seq :
      d.kind ≡ seq
      → Scanned node ds (record s { found = add node s.found }) t
      → Scanned node (d ∷ ds) s t
  unfolding table_size
  Scanned-seq p ih = record {
    visited = ih.visited;
    found = λ x. (
      λ m. elim ((ih.found x).0 m) [
        | inl k ↦ elim ((mem-add x node s.found).0 k) [
          | inl l ↦ inl l
          | inr e ↦ inr (e, (Clocked-cons d ds).1 (inl p))
        ]
        | inr (e, c) ↦ inr (e, (Clocked-cons d ds).1 (inr c))
      ],
      λ h. elim h [
        | inl k ↦ (ih.found x).1 (inl ((mem-add x node s.found).1 (inl k)))
        | inr (e, c) ↦ (ih.found x).1 (inl ((mem-add x node s.found).1 (inr e)))
      ],
    );
    stack = λ x. (
      λ m. elim ((ih.stack x).0 m) [ inl f ↦ inl ((Feeds-cons d ds x).1 (inr f)) | inr k ↦ inr k ],
      λ h. elim h [
        | inl f ↦ elim ((Feeds-cons d ds x).0 f) [
          | inl (k, r) ↦ absurd (cc)
          | inr g ↦ (ih.stack x).1 (inl g)
        ]
        | inr k ↦ (ih.stack x).1 (inr k)
      ],
    );
    room = omega (arith, ih.room);
  }

  Scanned-comb :
      d.kind ≡ comb
      → Scanned node ds (record s { stack = extend d.rhs s.stack }) t
      → Scanned node (d ∷ ds) s t
  unfolding table_size
  Scanned-comb p ih = record {
    visited = ih.visited;
    found = λ x. (
      λ m. elim ((ih.found x).0 m) [
        | inl k ↦ inl k
        | inr (e, c) ↦ inr (e, (Clocked-cons d ds).1 (inr c))
      ],
      λ h. elim h [
        | inl k ↦ (ih.found x).1 (inl k)
        | inr (e, c) ↦ elim ((Clocked-cons d ds).0 c) [
          | inl k ↦ absurd (cc)
          | inr c' ↦ (ih.found x).1 (inr (e, c'))
        ]
      ],
    );
    stack = λ x. (
      λ m. elim ((ih.stack x).0 m) [
        | inl f ↦ inl ((Feeds-cons d ds x).1 (inr f))
        | inr k ↦ elim ((mem-extend x d.rhs s.stack).0 k) [
          | inl r ↦ inl ((Feeds-cons d ds x).1 (inl (p, r)))
          | inr l ↦ inr l
        ]
      ],
      λ h. elim h [
        | inl f ↦ elim ((Feeds-cons d ds x).0 f) [
          | inl (k, r) ↦ (ih.stack x).1 (inr ((mem-extend x d.rhs s.stack).1 (inl r)))
          | inr g ↦ (ih.stack x).1 (inl g)
        ]
        | inr k ↦ (ih.stack x).1 (inr ((mem-extend x d.rhs s.stack).1 (inr k)))
      ],
    );
    room = omega (arith, ih.room, length-extend d.rhs s.stack);
  }

pub scan_edges-Scanned :
    (node : String) (ds : List Driver) (s : Search) → Scanned node ds s (scan_edges node ds s)
unfolding scan_edges table_size
scan_edges-Scanned node [] s = record {
  visited = refl;
  found = λ x. (inl, λ h. elim h [ inl m ↦ m | inr (e, c) ↦ elim c.1 [ ] ]);
  stack = λ x. (inr, λ h. elim h [ inr m ↦ m | inl f ↦ elim f.1 [ ] ]);
  room = omega arith;
}
scan_edges-Scanned node (d ∷ ds) s = elim (Kind-cases d.kind) [
  | inl p ↦
      let t : Search = record s { found = add node s.found } in
      let e : scan_edges node ds t ≡ scan_edges node (d ∷ ds) s = rw p refl in
      subst (Scanned node (d ∷ ds) s) e (Scanned-seq d p (scan_edges-Scanned node ds t))
  | inr p ↦
      let t : Search = record s { stack = extend d.rhs s.stack } in
      let e : scan_edges node ds t ≡ scan_edges node (d ∷ ds) s = rw p refl in
      subst (Scanned node (d ∷ ds) s) e (Scanned-comb d p (scan_edges-Scanned node ds t))
]
