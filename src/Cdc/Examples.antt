-- ===== src/Cdc/Examples.antt =====
-- A design with a two-flop synchronizer, and one with a direct crossing, in tools/cdc_checker.
use text.Mathlib.TextEquality.{eq_iff}
use mathlib.Core.List.{Memᴰ}
use mathlib.Core.List.Memᴰ.{head, tail}
use mind.Prelude.{
  String, List, ◌++◌, false, [], ◌∷◌, map, All, ◌≡◌, refl, ◌≢◌, ◌↔◌, ◌⊎◌, some, arith,
}
use mind.Prelude.Names.{has}
use mind.Cdc.Netlist.{
  Direction, input, output, Port, Assign, seq, AlwaysBlock, Module, build_drivers, edges_of,
  seq_drivers, comb_cone,
}
use mind.Cdc.Domains.{assign_domains, domain_of}
use mind.Cdc.Crossings.{boundary_of, analyze}
use mind.Cdc.Synchronizers.{known_crossings}
use mind.Cdc.Report.{loaded, run_checker, exit_pass, exit_fail}
use mind.Cdc.Reach.{Clocked, IsEndpoint, Reached, seed}
use mind.Cdc.Cone.{comb_cone_iff}
use mind.Cdc.Complete.{stop}
use mind.Cdc.Status.{IsOk, FailsFirst}
use mind.Cdc.Exit.{run_checker-pass_iff, run_checker-fail_iff}
use mind.Cdc.Sampled.{Samples}
use mind.Cdc.Safe.{
  IsSynchronized, domain_in, run_checker-IsSynchronized, run_checker-single, run_checker-inputs,
}
use mind.Cdc.Crossings.{
  sort_hits, hits_of, trace_cone, node_events, cone_of, seq_event, compare_hits, crossing_at,
  crossings_of, edge_events, events, flop_events, insert_hit, unique,
}
use mind.Cdc.Domains.{
  add_domain, add_to, clock_signals, is_reset_name, resolve, same_domain, scan_blocks, sole,
}
use mind.Cdc.Netlist.{cone_loop, cone_step, expand, extend, scan_edges, table_size, visit}
use mind.Cdc.Report.{verdict_exit, verdict_report}
use mind.Cdc.Synchronizers.{
  classify, by_dest, classify_chain, classify_direct, classify_found, classify_one, cone_union,
  consumers, domain_drivers, drivers_of, fifo_candidate, find_chain, fold_status, fold_unknown,
  is_exact, raise_status, same_domain_seq, second_stages, stages_used, width_of,
}
use mind.Formal.Node.{lower}
use mind.Formal.Scan.{drop_text, occurs_in, starts_with}
use mind.Formal.Table.{insert, union}
use mind.Prelude.Names.{flat_map, add, meets, within}
use mind.Prelude.Text.{take_text}
use mind.Cdc.Tokens.{ok, ◌>>=◌}
use mind.Cdc.Statements.{statement_drivers}
use mind.Cdc.Always.{read_statement, collect_statement}
use mind.Cdc.Consumed.{collect_statement-append}
use mind.Cdc.Lost.{statement_drivers-lost, statement_drivers-condition}

abbrev port : String → Direction → String × Port
port n d = (n, record { name = n; direction = d; width = 1 })

abbrev flop : String → String → String → AlwaysBlock
flop clock q d = record {
  kind = seq;
  clocks = ("posedge", clock) ∷ [];
  drivers = (record { lhs = q; rhs_ids = d ∷ [] }) ∷ [];
}

abbrev sample : Assign
sample = record { lhs = "f"; rhs_ids = "s" ∷ [] }

-- s <= d on ca; f <= s and g <= f on cb.
abbrev design : Module
design = record {
  name = "safe_2ff";
  ports = port "d" input ∷ port "ca" input ∷ port "cb" input ∷ port "g" output ∷ [];
  widths = ("d", 1) ∷ ("s", 1) ∷ ("f", 1) ∷ ("g", 1) ∷ [];
  assigns = [];
  always_blocks = flop "ca" "s" "d" ∷ flop "cb" "f" "s" ∷ flop "cb" "g" "f" ∷ [];
  instances = [];
}

design_passes : (run_checker (loaded design) "safe_2ff").0 ≡ exit_pass
unfolding run_checker classify sort_hits analyze hits_of flat_map seq_drivers domain_of
    assign_domains trace_cone build_drivers has node_events edges_of cone_of boundary_of seq_event
    by_dest compare_hits crossing_at crossings_of edge_events events flop_events insert_hit unique
    add_domain add_to clock_signals is_reset_name resolve same_domain scan_blocks sole comb_cone
    cone_loop cone_step expand extend scan_edges table_size visit verdict_exit verdict_report
    classify_chain classify_direct classify_found classify_one cone_union consumers domain_drivers
    drivers_of fifo_candidate find_chain fold_status fold_unknown is_exact known_crossings
    raise_status same_domain_seq second_stages stages_used width_of lower drop_text occurs_in
    starts_with insert union add meets within take_text
design_passes = refl

-- f <= s on cb, where s is on ca.
abbrev direct : Module
direct = record design {
  name = "unsafe_direct";
  always_blocks = flop "ca" "s" "d" ∷ flop "cb" "f" "s" ∷ [];
}

sample-mem : Memᴰ sample (seq_drivers design)
unfolding seq_drivers flat_map
sample-mem = tail (head refl)

s-Samples : Samples design sample "s"
unfolding has
s-Samples = ("s", head refl, stop refl refl)

s-Clocked : Clocked (edges_of (build_drivers design) "s")
unfolding edges_of build_drivers flat_map
s-Clocked = (_, head refl, refl)

s-domain : domain_in design "s" ≡ some "ca"
unfolding assign_domains domain_of scan_blocks add_to resolve sole clock_signals union insert
    add_domain has add
s-domain = refl

f-domain : domain_in design "f" ≡ some "cb"
unfolding assign_domains domain_of scan_blocks add_to resolve sole clock_signals union insert
    add_domain has add
f-domain = refl

ca-cb : ◌≢◌ {A = String} "ca" "cb"
ca-cb e = absurd (ground (arith, (eq_iff "ca" "cb").1 e))

run_checker-IsSynchronized_example :
    (d : String) × (e : String) × (domain_in design "f" ≡ some d)
    × (domain_in design "s" ≡ some e)
    × ((e ≡ d) ⊎ IsSynchronized design "s" "f" d)
run_checker-IsSynchronized_example =
    run_checker-IsSynchronized design "safe_2ff" sample "s" design_passes sample-mem s-Samples
      s-Clocked

run_checker-single_example : ◌≡◌ {A = String} "f" "f"
run_checker-single_example =
    run_checker-single design "safe_2ff" sample sample "s" "cb" "ca" design_passes sample-mem
      s-Samples s-Clocked f-domain s-domain (ca-cb) sample-mem f-domain (seed (head refl))

run_checker-inputs_example :
    (has "s" (boundary_of design) ≡ false)
    × ((edges_of (build_drivers design) "s" ≢ []) ⊎ Memᴰ "s" (map (λ p. p.0) design.ports))
run_checker-inputs_example =
    run_checker-inputs design "safe_2ff" sample "s" design_passes sample-mem s-Samples

comb_cone_iff_example :
    Memᴰ "s" (comb_cone design ("s" ∷ []))
    ↔ (Reached (build_drivers design) ("s" ∷ []) "s" × IsEndpoint (build_drivers design) "s")
comb_cone_iff_example = comb_cone_iff design ("s" ∷ []) "s"

run_checker-pass_iff_example : ((run_checker (loaded design) "safe_2ff").0 ≡ exit_pass) ↔ (
    (m : Module) × (loaded design ≡ loaded m)
    × All IsOk (run_checker (loaded design) "safe_2ff").1.crossings)
run_checker-pass_iff_example = run_checker-pass_iff (loaded design) "safe_2ff"

run_checker-fail_iff_example : ((run_checker (loaded direct) "unsafe_direct").0 ≡ exit_fail) ↔ (
    (m : Module) × (loaded direct ≡ loaded m)
    × FailsFirst (known_crossings m (assign_domains m) (analyze m (assign_domains m))))
run_checker-fail_iff_example = run_checker-fail_iff (loaded direct) "unsafe_direct"

-- if (a <= b) q <= d;
statement_drivers-lost_example :
    statement_drivers ("if" ∷ "(" ∷ ("a" ∷ []) ++ "<=" ∷ "b" ∷ ")" ∷ "q" ∷ "<=" ∷ "d" ∷ []) ≡ ok []
unfolding has
statement_drivers-lost_example =
    statement_drivers-lost ("a" ∷ []) ("b" ∷ ")" ∷ "q" ∷ "<=" ∷ "d" ∷ []) refl refl (refl, refl)

-- if (en) q <= d;
statement_drivers-condition_example :
    statement_drivers ("if" ∷ "(" ∷ ("en" ∷ ")" ∷ "q" ∷ []) ++ "<=" ∷ "d" ∷ [])
    ≡ statement_drivers ("q" ∷ "<=" ∷ "d" ∷ [])
unfolding has
statement_drivers-condition_example =
    statement_drivers-condition ("en" ∷ []) "q" ("d" ∷ []) refl refl refl refl (refl, refl)

abbrev statement : List String
statement = "q" ∷ "<=" ∷ "d" ∷ ";" ∷ []

statement-collected : collect_statement (statement ++ "end" ∷ []) ≡ ok (statement, "end" ∷ [])
unfolding collect_statement read_statement has ◌>>=◌ occurs_in starts_with take_text
statement-collected = refl

collect_statement-append_example :
    (statement ++ "end" ∷ [] ≡ statement ++ "end" ∷ []) × (statement ≢ [])
collect_statement-append_example =
    collect_statement-append (statement ++ "end" ∷ []) statement ("end" ∷ []) statement-collected
