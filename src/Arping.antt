-- ===== src/Arping.antt =====
-- pkg/arping/datagram.go: the layout of an ARP packet. A byte is a number below 256 and a `uint16`
-- one below 65536; `net.IP` and `net.HardwareAddr` are byte slices.
use uk8s_cni_vpc.Prelude.{
  ℕ, zero, suc, ◌+◌, ◌*◌, ◌/◌, ◌%◌, Bool, true, false, ◌&&◌, List, [], ◌∷◌, ◌++◌, eqb, length, take,
  drop, if◌then◌else◌,
}
pub mod Datagram
pub mod Conflict

abbrev pub request_oper : ℕ
request_oper = 1

abbrev pub response_oper : ℕ
response_oper = 2

pub record ArpDatagram : Type 0 where
  pub htype : ℕ
  pub ptype : ℕ
  pub hlen : ℕ
  pub plen : ℕ
  pub oper : ℕ
  pub sha : List ℕ
  pub spa : List ℕ
  pub tha : List ℕ
  pub tpa : List ℕ

-- `bytes.Equal`
pub bytes_equal : List ℕ → List ℕ → Bool
bytes_equal [] [] = true
bytes_equal [] (y ∷ ys) = false
bytes_equal (x ∷ xs) [] = false
bytes_equal (x ∷ xs) (y ∷ ys) = eqb x y && bytes_equal xs ys

-- The prefix of an IPv4 address in the 16-byte form of `net.IP`.
abbrev pub v4_in_v6_prefix : List ℕ
v4_in_v6_prefix = 0 ∷ 0 ∷ 0 ∷ 0 ∷ 0 ∷ 0 ∷ 0 ∷ 0 ∷ 0 ∷ 0 ∷ 255 ∷ 255 ∷ []

-- `net.IP.To4`; `nil` is the empty slice.
pub to4 : List ℕ → List ℕ
unfolding bytes_equal
to4 ip =
    if eqb (length ip) 4
    then ip
    else if eqb (length ip) 16 && bytes_equal (take 12 ip) v4_in_v6_prefix
    then drop 12 ip
    else []

pub new_arp_request : List ℕ → List ℕ → List ℕ → List ℕ → ArpDatagram
unfolding to4
new_arp_request src_mac src_ip dst_mac dst_ip = record {
  htype = 1;
  ptype = 0x0800;
  hlen = 6;
  plen = 4;
  oper = request_oper;
  sha = src_mac;
  spa = to4 src_ip;
  tha = dst_mac;
  tpa = to4 dst_ip;
}

-- `binary.Write(buf, binary.BigEndian, v)` at `uint16` and at `uint8`.
abbrev pub write_uint16 : ℕ → List ℕ
write_uint16 v = (v / 256 % 256) ∷ (v % 256) ∷ []

abbrev pub write_uint8 : ℕ → List ℕ
write_uint8 v = (v % 256) ∷ []

pub marshal : ArpDatagram → List ℕ
marshal d =
    write_uint16 d.htype
    ++ (write_uint16 d.ptype
        ++ (write_uint8 d.hlen
            ++ (write_uint8 d.plen
                ++ (write_uint16 d.oper ++ (d.sha ++ (d.spa ++ (d.tha ++ d.tpa)))))))

pub marshal_with_ethernet_header : ArpDatagram → List ℕ
unfolding marshal
marshal_with_ethernet_header d = d.tha ++ (d.sha ++ (0x08 ∷ 0x06 ∷ marshal d))

-- `binary.Read` of a `uint16`: a short buffer is used up and leaves the field at zero.
abbrev pub read_uint16 : List ℕ → ℕ × List ℕ
read_uint16 [] = (0, [])
read_uint16 (a ∷ []) = (0, [])
read_uint16 (a ∷ b ∷ rest) = (a * 256 + b, rest)

abbrev pub read_uint8 : List ℕ → ℕ × List ℕ
read_uint8 [] = (0, [])
read_uint8 (a ∷ rest) = (a, rest)

-- The four addresses: `b.Next(n)` gives what is left if the buffer is shorter.
pub parse_addresses : ℕ → ℕ → ℕ → ℕ → ℕ → List ℕ → ArpDatagram
parse_addresses htype ptype hlen plen oper b = record {
  htype = htype;
  ptype = ptype;
  hlen = hlen;
  plen = plen;
  oper = oper;
  sha = take hlen b;
  spa = take plen (drop hlen b);
  tha = take hlen (drop plen (drop hlen b));
  tpa = take plen (drop hlen (drop plen (drop hlen b)));
}

pub parse_arp_datagram : List ℕ → ArpDatagram
unfolding parse_addresses
parse_arp_datagram buffer =
    let (htype, b1) = read_uint16 buffer in
    let (ptype, b2) = read_uint16 b1 in
    let (hlen, b3) = read_uint8 b2 in
    let (plen, b4) = read_uint8 b3 in
    let (oper, b5) = read_uint16 b4 in parse_addresses htype ptype hlen plen oper b5

pub is_response_of : ArpDatagram → ArpDatagram → Bool
unfolding bytes_equal
is_response_of datagram request =
    eqb datagram.oper response_oper
    && (bytes_equal request.spa datagram.tpa && bytes_equal request.tpa datagram.spa)
