-- ===== src/Cdc/Passed.antt =====
-- What a passing verdict of tools/cdc_checker/synchronizers.py says of the crossings it lists.
use text.Mathlib.Text.{◌==◌ as str_eq}
use text.Mathlib.TextEquality.{eq_iff}
use mathlib.Core.List.{Memᴰ}
use mathlib.Core.List.Memᴰ
use mind.Prelude.{
  String, Bool, true, false, List, [], ◌∷◌, map, keep, ◌==◌, ==_iff, some, ◌≡◌, refl, ◌≢◌, inl, inr,
  Bool-cases, Option-cases, arith,
}
use mind.Prelude.Keep.{is_empty, mem-keep, All-mem, All-self, All-map_iff}
use mind.Prelude.Names.{within, mem-flat_map}
use mind.Formal.Table.{union}
use mind.Formal.Assignments.{All-union}
use mind.Cdc.Netlist.{Module}
use mind.Cdc.Domains.{DomainMap}
use mind.Cdc.Crossings.{RawCrossing, Analysis}
use mind.Cdc.Synchronizers.{
  ok, pass, drivers_of, same_domain_seq, cone_union, second_stages, find_chain, width_of, is_exact,
  classify_chain, classify_direct, classify_found, Handshake, classify_one, by_dest,
  known_crossings, classify, fifo_candidate, handshake_chains,
}
use mind.Cdc.Status.{IsOk, classify-pass}

-- The crossing is single-bit, into a flop that begins an exact chain, and involves no reset.
pub record IsSafe (m : Module) (dm : DomainMap) (c : RawCrossing) : Type 0 where
  pub no_reset : c.reset_involved ≡ false
  pub stages : List String
  pub stage1 : String
  pub chain : find_chain m dm c.source c.dest c.dest_domain ≡ some (stage1, stages)
  pub exact : is_exact m dm c stage1 stages ≡ true
  pub single : width_of m c.source ≡ 1

module _ (m : Module) (dm : DomainMap) (c : RawCrossing) where
  classify_direct-severity : (classify_direct m c).severity ≢ ok
  unfolding classify_direct
  classify_direct-severity = elim (Bool-cases (width_of m c.source == 1)) [
    | inl p ↦ rw p (λ h. cc)
    | inr p ↦ rw p (λ h. cc)
  ]

  classify_chain-ok :
      (stage1 : String) (stages : List String)
      → (classify_chain m dm c stage1 stages).severity ≡ ok
      → (is_exact m dm c stage1 stages ≡ true) × (width_of m c.source ≡ 1)
  unfolding classify_chain
  classify_chain-ok stage1 stages = elim (Bool-cases (is_exact m dm c stage1 stages)) [
    | inr p ↦ rw p (λ h. absurd (cc))
    | inl p ↦ elim (Bool-cases (width_of m c.source == 1)) [
      | inl q ↦ λ h. (p, (==_iff (width_of m c.source) 1).0 q)
      | inr q ↦ rw (p, q) (λ h. absurd (cc))
    ]
  ]

  classify_one-ok :
      (fifo : Bool) (handshake : Handshake)
      → (classify_one m dm c fifo handshake).severity ≡ ok
      → IsSafe m dm c
  unfolding classify_one classify_found
  classify_one-ok fifo handshake = elim (Bool-cases c.reset_involved) [
    | inl p ↦ simp p (λ h. absurd (cc))
    | inr p ↦ elim (Bool-cases fifo) [
      | inl q ↦ simp (p, q) (λ h. absurd (cc))
      | inr q ↦ elim (Option-cases (find_chain m dm c.source c.dest c.dest_domain)) [
        | inl n ↦ simp (p, q, n) (λ h. absurd (classify_direct-severity h))
        | inr ((s, t), n) ↦
            simp (p, q, n)
              (λ h.
                let (e, w) = classify_chain-ok s t h in
                record { no_reset = p; stages = t; stage1 = s; chain = n; exact = e; single = w })
      ]
    ]
  ]

by_dest-mem : (x : RawCrossing) (cs : List RawCrossing) → Memᴰ x cs → Memᴰ x (by_dest cs)
unfolding by_dest
by_dest-mem x cs m =
    let dests = map (λ (c : RawCrossing). c.dest) cs in
    let sorted = union dests [] in
    let inside = (All-union (λ d. Memᴰ d sorted) dests [] (All-self sorted)).0 in
    let d =
      All-mem (λ d. Memᴰ d sorted) x.dest dests inside (Memᴰ.map (λ (c : RawCrossing). c.dest) m) in
    mem-flat_map (λ dest. keep (λ (c : RawCrossing). str_eq c.dest dest) cs) x.dest x sorted d
      (mem-keep (λ (c : RawCrossing). str_eq c.dest x.dest) x cs m ((eq_iff x.dest x.dest).1 refl))

-- In a passing verdict every crossing of the analysis is safe.
pub passed-IsSafe :
    (m : Module) (dm : DomainMap) (a : Analysis) (x : RawCrossing)
    → (classify m dm a).status ≡ pass
    → Memᴰ x a.crossings
    → IsSafe m dm x
unfolding known_crossings
passed-IsSafe m dm a x h k =
    let one =
      λ (c : RawCrossing). classify_one m dm c (fifo_candidate m dm) (handshake_chains m dm) in
    let all_ok = (All-map_iff IsOk one (by_dest a.crossings)).0 (classify-pass m dm a h).1 in
    classify_one-ok m dm x (fifo_candidate m dm) (handshake_chains m dm)
      (All-mem (λ c. IsOk (one c)) x (by_dest a.crossings) all_ok (by_dest-mem x a.crossings k))

-- What a chain that was found consists of.
pub find_chain-some :
    (m : Module) (dm : DomainMap) (src first domain stage1 : String) (stages : List String)
    → find_chain m dm src first domain ≡ some (stage1, stages)
    → (first ≡ stage1)
      × (second_stages m dm first domain ≡ stages)
      × (is_empty stages ≡ false)
      × (within (cone_union m (drivers_of m first domain dm)) (src ∷ same_domain_seq m domain dm)
          ≡ true)
unfolding find_chain
find_chain-some m dm src first domain stage1 stages h = ground arith
