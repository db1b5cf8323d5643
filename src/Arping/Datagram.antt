-- ===== src/Arping/Datagram.antt =====
-- pkg/arping/datagram.go: what is written is read back.
use mathlib.Core.List.{append_assoc}
use uk8s_cni_vpc.Prelude.{
  ℕ, ◌+◌, ◌*◌, ◌/◌, ◌%◌, ◌<◌, ◌≡◌, List, ◌++◌, arith, length, take, drop, take-append, drop-append,
}
use uk8s_cni_vpc.Arping.{ArpDatagram, marshal, parse_arp_datagram, parse_addresses}

-- The fields fit their machine types and the addresses have the stated lengths.
pub record IsWellFormed (d : ArpDatagram) : Type 0 where
  pub htype : d.htype < 65536
  pub ptype : d.ptype < 65536
  pub hlen : d.hlen < 256
  pub plen : d.plen < 256
  pub oper : d.oper < 65536
  pub sha : length d.sha ≡ d.hlen
  pub spa : length d.spa ≡ d.plen
  pub tha : length d.tha ≡ d.hlen
  pub tpa : length d.tpa ≡ d.plen

uint16_bytes : (v : ℕ) → v < 65536 → v / 256 % 256 * 256 + v % 256 ≡ v
uint16_bytes v h = omega arith

uint8_byte : (v : ℕ) → v < 256 → v % 256 ≡ v
uint8_byte v h = omega arith

take_field : (n : ℕ) (xs ys : List ℕ) → length xs ≡ n → take n (xs ++ ys) ≡ xs
take_field n xs ys e = rw (← e) (take-append xs ys)

drop_field : (n : ℕ) (xs ys : List ℕ) → length xs ≡ n → drop n (xs ++ ys) ≡ ys
drop_field n xs ys e = rw (← e) (drop-append xs ys)

parse_addresses-append :
    (d : ArpDatagram) (rest : List ℕ)
    → IsWellFormed d
    → parse_addresses d.htype d.ptype d.hlen d.plen d.oper
        (d.sha ++ (d.spa ++ (d.tha ++ (d.tpa ++ rest))))
      ≡ d
unfolding parse_addresses
parse_addresses-append d rest w = simp (
  drop_field d.hlen d.sha (d.spa ++ (d.tha ++ (d.tpa ++ rest))) w.sha,
  drop_field d.plen d.spa (d.tha ++ (d.tpa ++ rest)) w.spa,
  drop_field d.hlen d.tha (d.tpa ++ rest) w.tha,
  take_field d.hlen d.sha (d.spa ++ (d.tha ++ (d.tpa ++ rest))) w.sha,
  take_field d.plen d.spa (d.tha ++ (d.tpa ++ rest)) w.spa,
  take_field d.hlen d.tha (d.tpa ++ rest) w.tha,
  take_field d.plen d.tpa rest w.tpa,
)

-- A well-formed packet is read back whole, whatever padding follows it in the frame.
pub parse_arp_datagram-marshal :
    (d : ArpDatagram) (rest : List ℕ) → IsWellFormed d → parse_arp_datagram (marshal d ++ rest) ≡ d
unfolding parse_arp_datagram marshal
parse_arp_datagram-marshal d rest w =
    simp
      (
        append_assoc,
        uint16_bytes d.htype w.htype,
        uint16_bytes d.ptype w.ptype,
        uint8_byte d.hlen w.hlen,
        uint8_byte d.plen w.plen,
        uint16_bytes d.oper w.oper,
      )
      (parse_addresses-append d rest w)
