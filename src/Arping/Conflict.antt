-- ===== src/Arping/Conflict.antt =====
-- pkg/arping/arping.go: conflict detection after RFC 5227. One attempt sends its probes while a
-- second goroutine reads packets; `Event` is what a read returns, in order, up to the announce
-- timeout that ends the list. Sockets, timers and interfaces are parameters.
pub mod Verdicts
use uk8s_cni_vpc.Prelude.{
  ℕ, zero, suc, Bool, true, false, not, ◌&&◌, List, [], ◌∷◌, eqb, length, if◌then◌else◌,
}
use uk8s_cni_vpc.Result.{Result, ok, err, Error, failure}
use uk8s_cni_vpc.Step.{Step}
use uk8s_cni_vpc.Arping.{ArpDatagram, bytes_equal, to4}

abbrev pub max_conflicts : ℕ
max_conflicts = 10

-- `retry` is EAGAIN or EINTR.
pub data Event : Type 0 where
  received : ArpDatagram → Event
  retry : Event
  broken : Event

pub data Verdict : Type 0 where
  silent conflicting : Verdict

-- What one packet says about the address `src_ip` of the interface with address `mac`.
pub judge : List ℕ → List ℕ → ArpDatagram → Verdict
judge src_ip mac dg =
    if bytes_equal dg.spa (to4 src_ip)
    then (if bytes_equal dg.sha mac then silent else conflicting)
    else if bytes_equal dg.tpa (to4 src_ip) && not (bytes_equal dg.sha mac)
    then conflicting
    else silent

-- The receiving goroutine; the end of the list is the announce timeout.
pub receive_loop : List ℕ → List ℕ → List Event → Result Bool
receive_loop src_ip mac [] = ok false
receive_loop src_ip mac (received dg ∷ events) =
    let rest = receive_loop src_ip mac events in
    elim (judge src_ip mac dg) [ conflicting ↦ ok true | silent ↦ rest ]
receive_loop src_ip mac (retry ∷ events) = receive_loop src_ip mac events
receive_loop src_ip mac (broken ∷ events) = err (failure "receive gratuitous arp response")

pub validate_ip : List ℕ → Bool
unfolding to4
validate_ip ip = eqb (length (to4 ip)) 4

-- `DetectIpConflictWithGratuitousArp`, the loop over attempts, from attempt `i` with the results of
-- the last one; `attempt` is an attempt with whatever the network does during it.
module _ {S : Type 0} (attempt : Step S Bool) where
  pub detect_from : ℕ → Result Bool → Step S Bool
  detect_from zero last s = (last, s)
  detect_from (suc left) last s =
      let (r, s') = attempt s in
      let again = detect_from left r s' in
      elim r [ ok clash ↦ if clash then again else (ok false, s') | err e ↦ again ]

  pub detect_ip_conflict_with_gratuitous_arp : Step S Bool
  unfolding detect_from
  detect_ip_conflict_with_gratuitous_arp = detect_from max_conflicts (ok false)

-- One attempt: the interface and the socket, then the packets that the socket yields.
module _ {S : Type 0} (interface_by_name : Step S (List ℕ)) (listen : Step S (List Event)) where
  pub detect_once : List ℕ → Step S Bool
  unfolding validate_ip receive_loop judge
  detect_once src_ip s =
      if validate_ip src_ip
      then (let (iface, s1) = interface_by_name s in
          elim iface [
            | err e ↦ (err (failure "get interface by name"), s1)
            | ok mac ↦
                let (events, s2) = listen s1 in
                elim events [
                  | err e ↦ (err (failure "initialize interface"), s2)
                  | ok seen ↦ (receive_loop src_ip mac seen, s2)
                ]
          ])
      else (err (failure "validate ip"), s)
