-- ===== src/Group/Sniffs.antt =====
-- What a packet does to a flow counter, in terms of the bytes of the packet.
use ntrt.Prelude.{
  ℕ, ◌≡◌, ap, ◌∙◌, sym, subst, Bool, true, false, ◌&&◌, some, ◌==◌, if◌then◌else◌, arith,
}
use ntrt.Prelude.Word.{ByteOrder}
use ntrt.Clock.{Mtime}
use ntrt.Sniff.{Sniff}
use ntrt.Sniff.Packet.{IsBytes, is_udp, is_tcp, src_port, dst_port}
use ntrt.Sniff.Memo.{IsValid, is_udp_lem, is_tcp_lem}
use ntrt.Sniff.Queries.{is_udp-Carried, is_tcp-Carried}
use ntrt.Feature.Loads.{src_port_lem, dst_port_lem}
use ntrt.Group.{
  Prototype, Groupcounter, src_udp_flows, dst_udp_flows, src_tcp_flows, dst_tcp_flows, add_sniff,
  flows_add_or_refresh,
}
use ntrt.Group.Activity
use ntrt.Group.Activity.{activity, flows_add_or_refresh_lem, flows_add_or_refresh-IsValid}

-- The packets that a prototype counts, and the port that it counts them under.
unfoldable pub concerns : Prototype → (ℕ → ℕ) → Bool
concerns src_udp_flows m = is_udp m
concerns dst_udp_flows m = is_udp m
concerns src_tcp_flows m = is_tcp m
concerns dst_tcp_flows m = is_tcp m

unfoldable pub port_of : Prototype → (ℕ → ℕ) → ℕ
port_of src_udp_flows m = src_port m
port_of dst_udp_flows m = dst_port m
port_of src_tcp_flows m = src_port m
port_of dst_tcp_flows m = dst_port m

module _ (o : ByteOrder) (m : ℕ → ℕ) (bytes : IsBytes m) (now : Mtime) (g : Groupcounter)
    (s : Sniff) (v : IsValid o m s) where
  added :
      (b : Bool) (g' : Groupcounter) (other p : ℕ)
      → g' ≡ (if b then flows_add_or_refresh now g p else g)
      → activity g'.flows other ≡ (if b && p == other then some now else activity g.flows other)
  added true g' other p e =
      ap (λ x. activity x.flows other) e ∙ flows_add_or_refresh_lem g now p other
  added false g' other p e = ap (λ x. activity x.flows other) e

  kept :
      (b : Bool) (g' : Groupcounter) (p : ℕ)
      → Activity.IsValid g
      → g' ≡ (if b then flows_add_or_refresh now g p else g)
      → Activity.IsValid g'
  kept true g' p gv e = subst Activity.IsValid (sym e) (flows_add_or_refresh-IsValid g now p gv)
  kept false g' p gv e = subst Activity.IsValid (sym e) gv

  -- The counter is refreshed at the packet's port, if the packet concerns it.
  pub add_sniff_run :
      (p : Prototype)
      → ((add_sniff o p now g s).0
          ≡ (if concerns p m then flows_add_or_refresh now g (port_of p m) else g))
        × IsValid o m (add_sniff o p now g s).1
  unfolding add_sniff concerns port_of
  add_sniff_run src_udp_flows =
      ground (arith, is_udp_lem o m s v, is_udp-Carried o m s v, src_port_lem o m bytes)
  add_sniff_run dst_udp_flows =
      ground (arith, is_udp_lem o m s v, is_udp-Carried o m s v, dst_port_lem o m bytes)
  add_sniff_run src_tcp_flows =
      ground (arith, is_tcp_lem o m s v, is_tcp-Carried o m s v, src_port_lem o m bytes)
  add_sniff_run dst_tcp_flows =
      ground (arith, is_tcp_lem o m s v, is_tcp-Carried o m s v, dst_port_lem o m bytes)

  -- A packet sets the time of the port that the prototype counts it under, if it concerns the
  -- prototype, and of no other port; the counter stays valid, and so does the sniff's memo.
  pub add_sniff_lem :
      (p : Prototype) (other : ℕ)
      → Activity.IsValid g
      → (activity (add_sniff o p now g s).0.flows other
          ≡ (if concerns p m && port_of p m == other then some now else activity g.flows other))
        × Activity.IsValid (add_sniff o p now g s).0
        × IsValid o m (add_sniff o p now g s).1
  add_sniff_lem p other gv =
      let (runs, memo) = add_sniff_run p in
      (
        added (concerns p m) (add_sniff o p now g s).0 other (port_of p m) runs,
        kept (concerns p m) (add_sniff o p now g s).0 (port_of p m) gv runs,
        memo,
      )
