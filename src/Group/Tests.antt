-- ===== src/Group/Tests.antt =====
-- The flow counters at sample packets.
use ntrt.Prelude.{◌≡◌, refl, some, List, [], ◌∷◌, get_or, arith}
use ntrt.Prelude.Word.{little, sub32}
use ntrt.Prelude.Int.{pos}
use ntrt.Clock.{diffmtime_fromnow}
use ntrt.Sniff.{setup_sniff}
use ntrt.Sniff.Memo
use ntrt.Sniff.Sample.{view, tcp_packet, tcp_packet-IsBytes}
use ntrt.Accumulator.Sample.{seconds}
use ntrt.Group.{Groupcounter, src_tcp_flows, flows_obsolate_and_get, flows_add_or_refresh}
use ntrt.Group.Activity.{activity, IsValid, flows_add_or_refresh_lem}
use ntrt.Group.Timeout.{Reads, flows_obsolate_and_get_lem}
use ntrt.Group.Component.{groupcounter_sniff_receiver}
use ntrt.Group.Requests.{Sniffed, groupcounter_sniff_receiver_lem}

-- Two flows by source port; that of port 443 is old at 12 seconds.
abbrev counter : Groupcounter
counter = record {
  interface = src_tcp_flows;
  flows =
      record { portnum = 443; last_activity = seconds 9 }
      ∷ record { portnum = 80; last_activity = seconds 11 }
      ∷ [];
  flowcounts = 2;
  timeout_treshold = pos 2000;
}

counter-IsValid : IsValid counter
counter-IsValid = record { distinct = (refl, (refl, tt)); counted = refl }

flows_add_or_refresh_example :
    activity (flows_add_or_refresh (seconds 12) counter 80).flows 80 ≡ some (seconds 12)
flows_add_or_refresh_example = flows_add_or_refresh_lem counter (seconds 12) 80 80

flows_obsolate_and_get_example : Reads (λ _. seconds 12) counter 80
flows_obsolate_and_get_example =
    flows_obsolate_and_get_lem (λ _. seconds 12) counter 80 counter-IsValid

flows_obsolate_and_get_run : (flows_obsolate_and_get (λ _. seconds 12) counter).0 ≡ 1
unfolding flows_obsolate_and_get diffmtime_fromnow sub32
flows_obsolate_and_get_run = refl

abbrev holders : List (List Groupcounter)
holders = (counter ∷ []) ∷ [] ∷ []

groupcounter_sniff_receiver_example :
    Sniffed
      (view tcp_packet)
      (λ _. seconds 12)
      80
      0
      (counter ∷ [])
      (get_or
        (groupcounter_sniff_receiver little
          (λ _. seconds 12)
          holders
          (some (setup_sniff (view tcp_packet) 0))
          0).0
        0
        [])
    × (get_or
          (groupcounter_sniff_receiver little
            (λ _. seconds 12)
            holders
            (some (setup_sniff (view tcp_packet) 0))
            0).0
          1
          []
        ≡ [])
groupcounter_sniff_receiver_example =
    groupcounter_sniff_receiver_lem little (view tcp_packet) tcp_packet-IsBytes (λ _. seconds 12)
      holders (setup_sniff (view tcp_packet) 0) 0 1 80
      (Memo.setup_sniff-IsValid little (view tcp_packet) 0) (omega arith) (omega arith)
      (counter-IsValid, tt)
