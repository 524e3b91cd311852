-- ===== src/Group.antt =====
-- lib/lib_groupcounters.c, the counters of the UDP and TCP flows seen by a listener: one entry per
-- port, with the time of its last packet. `flowcounts` is the 32-bit cell that both the signed field
-- and the unsigned pointer of `_flow_obsolator` read.
pub mod Activity
pub mod Timeout
pub mod Sniffs
pub mod Component
pub mod Requests
pub mod Start
mod Tests
use ntrt.Prelude.{
  ℕ, zero, suc, ◌+◌, ◌-◌, ◌^◌, ltb, Bool, true, false, Option, none, some, List, [], ◌∷◌, ◌==◌,
  if◌then◌else◌,
}
use ntrt.Prelude.Word.{ByteOrder, ntohs, add32, sub32}
use ntrt.Prelude.Int.{ℤ, pos, negsuc}
use ntrt.Clock.{Mtime, diffmtime_fromnow, ltb_int}
use ntrt.Slist.{slist_append}
use ntrt.Sniff.{Sniff, sniff_is_udp_packet, sniff_is_tcp_packet}

-- `flow_t`.
pub record Flow : Type 0 where
  pub portnum : ℕ
  pub last_activity : Mtime

-- One constructor for each `make_groupcounter_prototype_*`.
pub data Prototype : Type 0 where
  src_udp_flows dst_udp_flows src_tcp_flows dst_tcp_flows : Prototype

-- `groupcounter_t`; its interface is that of the prototype.
pub record Groupcounter : Type 0 where
  pub interface : Prototype
  pub flows : List Flow
  pub flowcounts : ℕ
  pub timeout_treshold : ℤ

-- `_flow_obsolator`: it looks at item `k` at reading `k` of the clock.
unfoldable pub flow_obsolator : ℤ → (ℕ → Mtime) → ℕ → List Flow → ℕ → List Flow × ℕ
flow_obsolator timeout now k [] counter = ([], counter)
flow_obsolator timeout now k (flow ∷ next) counter =
    elim (ltb_int (diffmtime_fromnow (now k) flow.last_activity) timeout) [
      | true ↦
          let (rest, counter') = flow_obsolator timeout now (k + 1) next counter in
          (flow ∷ rest, counter')
      | false ↦ flow_obsolator timeout now (k + 1) next (sub32 counter 1)
    ]

-- `_flows_obsolate_and_get`.
unfoldable pub flows_obsolate_and_get : (ℕ → Mtime) → Groupcounter → ℕ × Groupcounter
unfolding flow_obsolator
flows_obsolate_and_get now g = elim g.flows [
  | [] ↦ (0, record g { flowcounts = 0 })
  | f ∷ fs ↦
      let (flows, counter) = flow_obsolator g.timeout_treshold now 0 (f ∷ fs) g.flowcounts in
      (counter, record g { flows = flows; flowcounts = counter })
]

-- The loop of `_flows_add_or_refresh`, `none` where it ends without the port.
unfoldable pub refresh_loop : List Flow → ℕ → Mtime → Option (List Flow)
refresh_loop [] portnum now = none
refresh_loop (flow ∷ it) portnum now =
    let rest : Option (List Flow) = refresh_loop it portnum now in
    if flow.portnum == portnum
    then some (record flow { last_activity = now } ∷ it)
    else elim rest [ none ↦ none | some it' ↦ some (flow ∷ it') ]

-- `_flows_add_or_refresh`; each path reads the clock once.
unfoldable pub flows_add_or_refresh : Mtime → Groupcounter → ℕ → Groupcounter
unfolding refresh_loop slist_append
flows_add_or_refresh now g portnum = elim (refresh_loop g.flows portnum now) [
  | some flows ↦ record g { flows = flows }
  | none ↦ record g {
    flows = slist_append g.flows (record { portnum = portnum; last_activity = now });
    flowcounts = add32 g.flowcounts 1;
  }
]

-- A uint32_t in an int32_t.
unfoldable pub to_int32 : ℕ → ℤ
to_int32 n = if ltb n (2 ^ 31) then pos n else negsuc (2 ^ 32 - n - 1)

-- `_init_flowcounter` on the counter that `make_groupcounter` has made from a prototype.
unfoldable pub init_flowcounter : ℕ → Prototype → Groupcounter
unfolding to_int32
init_flowcounter accumulation_time interface = record {
  interface = interface;
  flows = [];
  flowcounts = 0;
  timeout_treshold = to_int32 accumulation_time;
}

module _ (o : ByteOrder) where
  -- `_src_udp_flows_add_sniff`, `_dst_udp_flows_add_sniff`, `_src_tcp_flows_add_sniff` and
  -- `_dst_tcp_flows_add_sniff`, by the interface of the counter.
  unfoldable pub add_sniff : Prototype → Mtime → Groupcounter → Sniff → Groupcounter × Sniff
  unfolding flows_add_or_refresh
  add_sniff src_udp_flows now g s =
      let (udp, s') = sniff_is_udp_packet o s in
      (if udp then flows_add_or_refresh now g (ntohs o s'.port_src) else g, s')
  add_sniff dst_udp_flows now g s =
      let (udp, s') = sniff_is_udp_packet o s in
      (if udp then flows_add_or_refresh now g (ntohs o s'.port_dst) else g, s')
  add_sniff src_tcp_flows now g s =
      let (tcp, s') = sniff_is_tcp_packet o s in
      (if tcp then flows_add_or_refresh now g (ntohs o s'.port_src) else g, s')
  add_sniff dst_tcp_flows now g s =
      let (tcp, s') = sniff_is_tcp_packet o s in
      (if tcp then flows_add_or_refresh now g (ntohs o s'.port_dst) else g, s')
