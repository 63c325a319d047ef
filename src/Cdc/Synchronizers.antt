-- ===== src/Cdc/Synchronizers.antt =====
-- tools/cdc_checker/synchronizers.py: the classification of the crossings. Names are ASCII identifiers.
use text.Mathlib.Text.{◌==◌ as str_eq}
use Prim.Native.String.{◌++◌ as append}
use mind.Prelude.{
  ℕ, String, Bool, true, false, not, ◌&&◌, ◌||◌, List, [], ◌∷◌, ◌++◌, Option, none, some, map, any,
  keep, length, if◌then◌else◌, ◌==◌, ltb,
}
use mind.Prelude.Keep.{is_empty}
use mind.Prelude.Names.{has, meets, within, flat_map}
use mind.Prelude.Text.{decimal, or_none}
use mind.Formal.Node.{lower}
use mind.Formal.Scan.{occurs_in}
use mind.Formal.Table.{union}
use mind.Cdc.Netlist.{Direction, input, output, inout, Assign, Module, seq_drivers, comb_cone}
use mind.Cdc.Domains.{Domain, DomainMap, domain_of, same_domain}
use mind.Cdc.Crossings.{RawCrossing, Analysis, sort_hits}

pub data Classification : Type 0 where
  safe_synchronizer unsafe_direct unsafe_bypass multibit_unproven unproven_fifo : Classification
  reset_crossing unknown : Classification

pub data Severity : Type 0 where
  error inconclusive ok : Severity

pub data Status : Type 0 where
  pass fail inconclusive_status : Status

pub record ClassifiedCrossing : Type 0 where
  pub source : String
  pub source_domain : Domain
  pub destination : String
  pub destination_domain : String
  pub path : List String
  pub classification : Classification
  pub severity : Severity
  pub detail : String

pub record Verdict : Type 0 where
  pub status : Status
  pub crossings : List ClassifiedCrossing
  pub notes : List String

-- `domain_map.domains.get(lhs) == domain`
abbrev pub in_domain : DomainMap → String → String → Bool
in_domain dm domain x = same_domain (domain_of dm x) (some domain)

-- The flops of a domain, one for each of their drivers.
unfoldable pub domain_drivers : Module → DomainMap → String → List Assign
domain_drivers m dm domain = keep (λ a. in_domain dm domain a.lhs) (seq_drivers m)

-- `_consumers`
unfoldable pub consumers : Module → DomainMap → List String → String → List String
consumers m dm signals domain =
    map (λ a. a.lhs)
      (keep (λ a. meets signals (comb_cone m a.rhs_ids)) (domain_drivers m dm domain))

find_width : String → List (String × ℕ) → ℕ
find_width sig [] = 1
find_width sig ((k, w) ∷ ws) = if str_eq k sig then w else find_width sig ws

-- `_width_of`
unfoldable pub width_of : Module → String → ℕ
unfolding find_width
width_of m sig = find_width sig m.widths

-- `_drivers_of`
unfoldable pub drivers_of : Module → String → String → DomainMap → List (List String)
drivers_of m lhs domain dm =
    map (λ a. a.rhs_ids) (keep (λ a. str_eq a.lhs lhs) (domain_drivers m dm domain))

-- `_same_domain_seq`
unfoldable pub same_domain_seq : Module → String → DomainMap → List String
same_domain_seq m domain dm = map (λ a. a.lhs) (domain_drivers m dm domain)

-- The union of the cones of several right-hand sides.
unfoldable pub cone_union : Module → List (List String) → List String
cone_union m rhs_list = flat_map (comb_cone m) rhs_list

-- The registers behind stage one whose drivers sample it, and same-domain registers, only.
unfoldable pub second_stages : Module → DomainMap → String → String → List String
second_stages m dm first domain =
    keep
      (λ lhs.
        let cone = cone_union m (drivers_of m lhs domain dm) in
        has first cone && within cone (first ∷ same_domain_seq m domain dm))
      (keep (λ lhs. not (str_eq lhs first)) (same_domain_seq m domain dm))

-- `_find_chain`
unfoldable pub find_chain :
    Module → DomainMap → String → String → String → Option (String × List String)
find_chain m dm src first domain =
    let rhs_list = drivers_of m first domain dm in
    let cone = cone_union m rhs_list in
    let stages = second_stages m dm first domain in
    if is_empty rhs_list
    then none
    else if not (has src cone)
    then none
    else if not (within cone (src ∷ same_domain_seq m domain dm))
    then none
    else if is_empty stages
    then none
    else some (first, stages)

abbrev pub is_output : Direction → Bool
is_output input = false
is_output output = true
is_output inout = false

-- `_stages_used`
unfoldable pub stages_used : Module → List String → Bool
stages_used m stages =
    any (λ a. meets stages a.rhs_ids) m.assigns
    || any (λ b. any (λ a. not (has a.lhs stages) && meets stages a.rhs_ids) b.drivers)
        m.always_blocks
    || any (λ p. is_output p.1.direction && has p.1.name stages) m.ports

-- `_fifo_candidate`
unfoldable pub fifo_candidate : Module → DomainMap → Bool
fifo_candidate m dm =
    let names = map (λ w. lower w.0) m.widths in
    let inst_names = map (λ i. lower (append i.cell (append " " i.name))) m.instances in
    let has_fifo = any (occurs_in "fifo") names || any (occurs_in "fifo") inst_names in
    let has_ptrs =
      any (occurs_in "ptr") names
      && (any (occurs_in "gray") names || any (occurs_in "wptr") names) in
    if ltb (length dm.clocks) 2 then false else has_fifo || has_ptrs

list_items : List String → String
list_items [] = ""
list_items (x ∷ []) = append "'" (append x "'")
list_items (x ∷ xs) = append "'" (append x (append "', " (list_items xs)))

-- `str(sorted(stages))`
unfoldable pub sorted_text : List String → String
unfolding list_items union
sorted_text stages = append "[" (append (list_items (union stages [])) "]")

abbrev classified : RawCrossing → Classification → Severity → String → ClassifiedCrossing
classified c k s detail = record {
  source = c.source;
  source_domain = c.source_domain;
  destination = c.dest;
  destination_domain = c.dest_domain;
  path = c.path;
  classification = k;
  severity = s;
  detail = detail;
}

-- The test for a bypass: nothing else in the domain consumes the source or the first stage.
unfoldable pub is_exact : Module → DomainMap → RawCrossing → String → List String → Bool
is_exact m dm c stage1 stages =
    within (consumers m dm (c.source ∷ []) c.dest_domain) (stage1 ∷ [])
    && within (consumers m dm (stage1 ∷ []) c.dest_domain) stages
    && stages_used m stages

-- A crossing into a flop that begins a chain.
unfoldable pub classify_chain :
    Module → DomainMap → RawCrossing → String → List String → ClassifiedCrossing
unfolding is_exact
classify_chain m dm c stage1 stages =
    let width = width_of m c.source in
    if is_exact m dm c stage1 stages
    then if width == 1
      then classified c safe_synchronizer ok (
          append "Exact 2-flop chain " (
            append c.source (
              append " -> "
                (append stage1 (append " -> " (append (sorted_text stages) ", no bypass."))))))
      else classified c multibit_unproven inconclusive (
          append "Bus (" (
            append (decimal width)
              "b) crossing even with staging is unproven without handshake/FIFO."))
    else classified c unsafe_bypass error (
        append "Synchronizer exists but "
          (append c.source (append "/" (append stage1 " is also consumed outside the chain."))))

-- A crossing into a flop that begins no chain.
unfoldable pub classify_direct : Module → RawCrossing → ClassifiedCrossing
classify_direct m c =
    let width = width_of m c.source in
    if not (width == 1)
    then classified c multibit_unproven inconclusive (
        append "Bus ("
          (append (decimal width) "b) crossing without proven handshake/FIFO; failing closed."))
    else classified c unsafe_direct error (
        append c.source (
          append " [" (
            append (or_none c.source_domain)
              (append "] sampled directly in " (append c.dest_domain " with no synchronizer.")))))

unfoldable pub classify_found :
    Module → DomainMap → RawCrossing → Option (String × List String) → ClassifiedCrossing
unfolding classify_chain classify_direct
classify_found m dm c none = classify_direct m c
classify_found m dm c (some (stage1, stages)) = classify_chain m dm c stage1 stages

abbrev is_none {ℓ} : {A : Type ℓ} → Option A → Bool
is_none none = true
is_none (some a) = false

-- `_handshake_chains`: whether a name with "req", and one with "ack" or "rdy", begins a chain between
-- two domains.
unfoldable pub begins_chain : Module → DomainMap → String → String → Assign → String → Bool
begins_chain m dm src_dom dst_dom a sig =
    any (λ c. has c (same_domain_seq m src_dom dm)) (comb_cone m (sig ∷ []))
    && not (is_none (find_chain m dm sig a.lhs dst_dom))

chained_names : Module → DomainMap → String → String → List String
unfolding begins_chain
chained_names m dm src_dom dst_dom =
    if str_eq src_dom dst_dom
    then []
    else flat_map (λ a. map lower (keep (begins_chain m dm src_dom dst_dom a) a.rhs_ids))
        (domain_drivers m dm dst_dom)

pub record Handshake : Type 0 where
  pub forward : Bool
  pub backward : Bool

unfoldable pub handshake_chains : Module → DomainMap → Handshake
unfolding chained_names
handshake_chains m dm =
    let names = flat_map (λ s. flat_map (chained_names m dm s) dm.clocks) dm.clocks in
    record {
      forward = any (occurs_in "req") names;
      backward = any (λ n. occurs_in "ack" n || occurs_in "rdy" n) names;
    }

-- `_classify_one`; the handshakes are passed to it and it does not read them.
unfoldable pub classify_one :
    Module → DomainMap → RawCrossing → Bool → Handshake → ClassifiedCrossing
unfolding classify_found
classify_one m dm c fifo handshake =
    if c.reset_involved
    then classified c reset_crossing inconclusive
        "Reset-involved crossing cannot be proven safe; failing closed."
    else if fifo
    then classified c unproven_fifo inconclusive
        "FIFO-like dual-clock structure without a complete proof; failing closed."
    else classify_found m dm c (find_chain m dm c.source c.dest c.dest_domain)

-- `sorted(by_dest.items())`, one list behind the other.
unfoldable pub by_dest : List RawCrossing → List RawCrossing
unfolding union
by_dest cs = flat_map (λ dest. keep (λ c. str_eq c.dest dest) cs) (union (map (λ c. c.dest) cs) [])

-- The status behind a crossing of that severity.
unfoldable pub raise_status : Severity → Status → Status
raise_status error pass = fail
raise_status inconclusive pass = inconclusive_status
raise_status inconclusive inconclusive_status = inconclusive_status
raise_status ok s = s
raise_status error fail = fail
raise_status error inconclusive_status = inconclusive_status
raise_status inconclusive fail = fail

unfoldable pub fold_status : List ClassifiedCrossing → Status → Status
unfolding raise_status
fold_status [] s = s
fold_status (c ∷ cs) s = fold_status cs (raise_status c.severity s)

unknown_domain : Domain → String
unknown_domain none = "unknown"
unknown_domain (some d) = if str_eq d "" then "unknown" else d

-- The entry for an unknown hit.
unfoldable pub unknown_crossing : DomainMap → String × String → ClassifiedCrossing
unfolding unknown_domain
unknown_crossing dm (dest, sig) = record {
  source = sig;
  source_domain = none;
  destination = dest;
  destination_domain = unknown_domain (domain_of dm dest);
  path = dest ∷ sig ∷ [];
  classification = unknown;
  severity = inconclusive;
  detail = "Driver domain cannot be determined; failing closed.";
}

note_of : String × String → String
note_of (dest, sig) = append dest (append ": unknown-domain driver or instance boundary at " sig)

-- An unknown hit turns PASS into INCONCLUSIVE.
unfoldable pub fold_unknown : List (String × String) → Status → Status
fold_unknown [] s = s
fold_unknown (h ∷ hs) pass = fold_unknown hs inconclusive_status
fold_unknown (h ∷ hs) fail = fold_unknown hs fail
fold_unknown (h ∷ hs) inconclusive_status = fold_unknown hs inconclusive_status

-- The crossings that the first loop of `classify` appends.
unfoldable pub known_crossings : Module → DomainMap → Analysis → List ClassifiedCrossing
known_crossings m dm a =
    map (λ c. classify_one m dm c (fifo_candidate m dm) (handshake_chains m dm))
      (by_dest a.crossings)

-- `classify`
unfoldable pub classify : Module → DomainMap → Analysis → Verdict
unfolding known_crossings fold_status fold_unknown note_of
classify m dm a =
    let known = known_crossings m dm a in
    let hits = sort_hits a.unknown_hits in
    let lost = map (unknown_crossing dm) hits in
    record {
      status = fold_unknown hits (fold_status known pass);
      crossings = known ++ lost;
      notes = map note_of hits;
    }
