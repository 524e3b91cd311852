-- ===== src/Sniff/Tests.antt =====
-- The dissection at sample packets.
use ntrt.Prelude.{◌≡◌, refl, true, false, some, List, [], ◌∷◌, map}
use ntrt.Prelude.Word.{little}
use ntrt.Sniff.{
  setup_sniff, sniff_is_ip_packet, sniff_is_udp_packet, sniff_is_tcp_packet, is_udp_or_tcp,
  sniff_get_payload, sniff_rtp_packet,
}
use ntrt.Sniff.Queries.{
  Query, ask_ip, ask_udp, ask_tcp, ask_payload, verdict, place, answer_of, ask_all, ask_all_lem,
}
use ntrt.Sniff.Sample.{view, rtp_packet}

abbrev questions : List Query
questions = ask_tcp ∷ ask_payload ∷ ask_udp ∷ ask_ip ∷ ask_payload ∷ ask_tcp ∷ []

ask_all_run :
    ask_all little questions (setup_sniff (view rtp_packet) 3)
    ≡ verdict false
      ∷ place (some 42)
      ∷ verdict true
      ∷ verdict true
      ∷ place (some 42)
      ∷ verdict false
      ∷ []
unfolding ask_all setup_sniff sniff_is_ip_packet sniff_is_udp_packet sniff_is_tcp_packet
    sniff_get_payload is_udp_or_tcp
ask_all_run = refl

ask_all_example :
    ask_all little questions (setup_sniff (view rtp_packet) 3)
    ≡ map (answer_of (view rtp_packet)) questions
ask_all_example = ask_all_lem little (view rtp_packet) 3 questions

rtp_run : (sniff_rtp_packet little (setup_sniff (view rtp_packet) 3)).rtp_payload_type ≡ 96
unfolding sniff_rtp_packet setup_sniff sniff_get_payload sniff_is_ip_packet is_udp_or_tcp
    sniff_is_udp_packet
rtp_run = refl
