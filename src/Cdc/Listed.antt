-- ===== src/Cdc/Listed.antt =====
-- What `analyze` of tools/cdc_checker/crossings.py lists, given its events.
use text.Mathlib.Text.{◌==◌ as str_eq}
use text.Mathlib.TextEquality.{eq_iff}
use Prim.Native.Nat.{Ordering}
use mathlib.Core.List.{Memᴰ}
use mathlib.Core.List.Memᴰ.{head, tail, cases_cons}
use mind.Prelude.{
  String, List, [], ◌∷◌, any, none, some, ◌≡◌, refl, sym, ap, ◌∙◌, ◌⊎◌, inl, inr, Bool-cases,
  &&-true_iff, ◌≢◌,
}
use mind.Prelude.Keep.{any-true→mem}
use mind.Prelude.Names.{mem-flat_map}
use mind.Cdc.Netlist.{Assign, Module, seq_drivers}
use mind.Cdc.Domains.{DomainMap, domain_of}
use mind.Cdc.Crossings.{
  RawCrossing, Event, crossing, hit, flop_events, events, crossings_of, hits_of, same_ends, unique,
  compare_hits, insert_hit, sort_hits,
}

-- An event of each flop driver is an event of the analysis.
pub events-mem :
    (m : Module) (dm : DomainMap) (a : Assign) (d : String) (e : Event)
    → Memᴰ a (seq_drivers m)
    → domain_of dm a.lhs ≡ some d
    → Memᴰ e (flop_events m dm (some d) a)
    → Memᴰ e (events m dm)
unfolding events
events-mem m dm a d e k p h =
    mem-flat_map (λ b. flop_events m dm (domain_of dm b.lhs) b) a e (seq_drivers m) k (rw p h)

-- A flop of unknown domain is a hit.
pub events-unknown :
    (m : Module) (dm : DomainMap) (a : Assign)
    → Memᴰ a (seq_drivers m)
    → domain_of dm a.lhs ≡ none
    → Memᴰ (hit a.lhs a.lhs) (events m dm)
unfolding events flop_events
events-unknown m dm a k p =
    mem-flat_map (λ b. flop_events m dm (domain_of dm b.lhs) b) a (hit a.lhs a.lhs) (seq_drivers m)
      k (rw p (head refl))

pub mem-crossings_of :
    (x : RawCrossing) (es : List Event) → Memᴰ (crossing x) es → Memᴰ x (crossings_of es)
unfolding crossings_of
mem-crossings_of x [] m = elim m [ ]
mem-crossings_of x (crossing y ∷ es) m = elim (cases_cons m) [
  | inl e ↦ head (cc)
  | inr k ↦ tail (mem-crossings_of x es k)
]
mem-crossings_of x (hit d s ∷ es) m = elim (cases_cons m) [
  | inl e ↦ absurd (cc)
  | inr k ↦ mem-crossings_of x es k
]

pub crossings_of-mem :
    (x : RawCrossing) (es : List Event) → Memᴰ x (crossings_of es) → Memᴰ (crossing x) es
unfolding crossings_of
crossings_of-mem x [] m = elim m [ ]
crossings_of-mem x (crossing y ∷ es) m = elim (cases_cons m) [
  | inl e ↦ head (ap crossing e)
  | inr k ↦ tail (crossings_of-mem x es k)
]
crossings_of-mem x (hit d s ∷ es) m = tail (crossings_of-mem x es m)

pub mem-hits_of : (d s : String) (es : List Event) → Memᴰ (hit d s) es → Memᴰ (d, s) (hits_of es)
unfolding hits_of
mem-hits_of d s [] m = elim m [ ]
mem-hits_of d s (hit e t ∷ es) m = elim (cases_cons m) [
  | inl q ↦ head (cc)
  | inr k ↦ tail (mem-hits_of d s es k)
]
mem-hits_of d s (crossing y ∷ es) m = elim (cases_cons m) [
  | inl e ↦ absurd (cc)
  | inr k ↦ mem-hits_of d s es k
]

-- Of the crossings between two signals one is kept.
pub unique-ends :
    (x : RawCrossing) (seen cs : List RawCrossing)
    → Memᴰ x cs
    → (y : RawCrossing) × (Memᴰ y (unique seen cs) ⊎ Memᴰ y seen)
      × (y.source ≡ x.source)
      × (y.dest ≡ x.dest)
unfolding unique
unique-ends x seen [] m = elim m [ ]
unique-ends x seen (c ∷ cs) m = elim (Bool-cases (any (same_ends c) seen)) [
  | inl p ↦ elim (cases_cons m) [
    | inl e ↦
        let (y, k, s) = any-true→mem (same_ends c) seen p in
        let (a, b) = (&&-true_iff (str_eq c.source y.source) (str_eq c.dest y.dest)).0 s in
        (
          y,
          inr k,
          sym ((eq_iff c.source y.source).0 a) ∙ sym (ap (λ (z : RawCrossing). z.source) e),
          sym ((eq_iff c.dest y.dest).0 b) ∙ sym (ap (λ (z : RawCrossing). z.dest) e),
        )
    | inr k ↦ rw p (unique-ends x seen cs k)
  ]
  | inr p ↦ elim (cases_cons m) [
    | inl e ↦ (
      c,
      inl (rw p (head refl)),
      ap (λ (z : RawCrossing). z.source) (sym e),
      ap (λ (z : RawCrossing). z.dest) (sym e),
    )
    | inr k ↦
        let (y, l, s, d) = unique-ends x (c ∷ seen) cs k in
        (
          y,
          elim l [
            | inl i ↦ inl (rw p (tail i))
            | inr i ↦ elim (cases_cons i) [ inl e ↦ inl (rw p (head e)) | inr j ↦ inr j ]
          ],
          s,
          d,
        )
  ]
]

pub unique-mem :
    (x : RawCrossing) (seen cs : List RawCrossing) → Memᴰ x (unique seen cs) → Memᴰ x cs
unfolding unique
unique-mem x seen [] = λ m. m
unique-mem x seen (c ∷ cs) = elim (Bool-cases (any (same_ends c) seen)) [
  | inl p ↦ rw p (λ m. tail (unique-mem x seen cs m))
  | inr p ↦
      rw p
        (λ m. elim (cases_cons m) [ inl e ↦ head e | inr k ↦ tail (unique-mem x (c ∷ seen) cs k) ])
]

insert_hit-filled : (h : String × String) (hs : List (String × String)) → insert_hit h hs ≢ []
unfolding insert_hit
insert_hit-filled h [] e = cc
insert_hit-filled h (k ∷ ks) e = filled (compare_hits h k) e
  where
    filled :
        (o : Ordering)
        → elim o [
          | Ordering.lt ↦ h ∷ k ∷ ks
          | Ordering.eq ↦ k ∷ ks
          | Ordering.gt ↦ k ∷ insert_hit h ks
        ]
          ≡ []
        → ⊥
    filled Ordering.lt q = cc
    filled Ordering.eq q = cc
    filled Ordering.gt q = cc

-- Where there is a hit, the sorted list of the hits is not empty.
pub sort_hits-filled :
    (h : String × String) (hs : List (String × String)) → Memᴰ h hs → sort_hits hs ≢ []
unfolding sort_hits
sort_hits-filled h [] m = elim m [ ]
sort_hits-filled h (k ∷ hs) m = insert_hit-filled k (sort_hits hs)
