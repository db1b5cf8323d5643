-- ===== src/Examples/ArpingRuns.antt =====
-- ARP packets and attempts at concrete inputs.
use uk8s_cni_vpc.Prelude.{
  ℕ, zero, suc, ◌≡◌, ◌↔◌, refl, Bool, true, false, List, [], ◌∷◌, ◌++◌, arith,
}
use uk8s_cni_vpc.Result.{ok}
use uk8s_cni_vpc.Step.{Step}
use uk8s_cni_vpc.Arping.{ArpDatagram, marshal, parse_arp_datagram}
use uk8s_cni_vpc.Arping.Datagram.{parse_arp_datagram-marshal}
use uk8s_cni_vpc.Arping.Conflict.{
  received, retry, receive_loop, detect_ip_conflict_with_gratuitous_arp, max_conflicts,
}
use uk8s_cni_vpc.Arping.Conflict.Verdicts.{
  Clash, FreeWithin, receive_loop-Clash, detect_ip_conflict-FreeWithin,
}

abbrev own_mac : List ℕ
own_mac = 0x52 ∷ 0x54 ∷ 0 ∷ 0 ∷ 0 ∷ 1 ∷ []

abbrev reply : ArpDatagram
reply = record {
  htype = 1;
  ptype = 0x0800;
  hlen = 6;
  plen = 4;
  oper = 2;
  sha = 0x52 ∷ 0x54 ∷ 0 ∷ 0 ∷ 0 ∷ 2 ∷ [];
  spa = 10 ∷ 0 ∷ 0 ∷ 9 ∷ [];
  tha = own_mac;
  tpa = 10 ∷ 0 ∷ 0 ∷ 9 ∷ [];
}

parse_arp_datagram-marshal_example : parse_arp_datagram (marshal reply ++ 0 ∷ 0 ∷ []) ≡ reply
parse_arp_datagram-marshal_example = parse_arp_datagram-marshal reply (0 ∷ 0 ∷ []) (record {
  htype = omega arith;
  ptype = omega arith;
  hlen = omega arith;
  plen = omega arith;
  oper = omega arith;
  sha = refl;
  spa = refl;
  tha = refl;
  tpa = refl;
})

receive_loop-Clash_example :
    (receive_loop (10 ∷ 0 ∷ 0 ∷ 9 ∷ []) own_mac (retry ∷ received reply ∷ []) ≡ ok true)
    ↔ Clash (10 ∷ 0 ∷ 0 ∷ 9 ∷ []) own_mac (retry ∷ received reply ∷ [])
receive_loop-Clash_example =
    receive_loop-Clash (10 ∷ 0 ∷ 0 ∷ 9 ∷ []) own_mac (retry ∷ received reply ∷ [])

-- An attempt that meets a conflict as long as the other station is there.
abbrev fading : Step ℕ Bool
fading zero = (ok false, zero)
fading (suc n) = (ok true, n)

detect_ip_conflict-FreeWithin_example :
    ((detect_ip_conflict_with_gratuitous_arp fading 3).0 ≡ ok false)
    ↔ FreeWithin fading max_conflicts 3
detect_ip_conflict-FreeWithin_example = detect_ip_conflict-FreeWithin fading 3
