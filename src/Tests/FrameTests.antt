-- ===== src/Tests/FrameTests.antt =====
-- Frames of RADKernel/core/RADKernel_runtime.cpp at concrete bytes.
use radpx_os.Base.{
  ℕ, ◌≡◌, refl, inl, inr, none, some, List, [], ◌∷◌, ◌++◌, arith, ◌==◌, Bool-cases, length, count,
  ok,
}
use radpx_os.Arp.{zero_entry, fresh_entry}
use radpx_os.Arp.Caching.{IsSingle}
use radpx_os.Frames.{
  Net, Device, sum_words, fold_carries, read_be16, write_be16, ipv4_checksum, arp_packet,
  parse_ethernet_frame, parse_arp_frame, send_arp_packet,
}
use radpx_os.Frames.Checksum.{checksum-write_be16}
use radpx_os.Frames.Keeping.{parse_frames, parse_frames-IsSingle}
use radpx_os.Tests.Fixtures.{kernel_of}

-- A header of 20 bytes, before its checksum and after it.
abbrev front : List ℕ
front = 69 ∷ 0 ∷ 0 ∷ 115 ∷ 0 ∷ 0 ∷ 64 ∷ 0 ∷ 64 ∷ 17 ∷ []

abbrev back : List ℕ
back = 192 ∷ 168 ∷ 0 ∷ 1 ∷ 192 ∷ 168 ∷ 0 ∷ 199 ∷ []

checksum_of_header : ipv4_checksum (front ++ 0 ∷ 0 ∷ back) ≡ 47201
unfolding ipv4_checksum sum_words fold_carries
checksum_of_header = refl

checksum-write_be16_example :
    ipv4_checksum (front ++ (write_be16 (ipv4_checksum (front ++ 0 ∷ 0 ∷ back)) ++ back)) ≡ 0
unfolding sum_words
checksum-write_be16_example = checksum-write_be16 5 front back refl (omega arith)

abbrev net : Net
net = record {
  kernel = kernel_of 1 [] [];
  arp_cache = fresh_entry 1 (9 ∷ []) ∷ zero_entry ∷ [];
  ethernet_rx = 0;
  ethernet_tx = 0;
  arp_rx = 0;
  ipv4_rx = 0;
  ipv4_tx = 0;
  udp_rx = 0;
  icmp_rx = 0;
  icmp_tx = 0;
  arp_tx = 0;
  sent = [];
}

abbrev own_mac : List ℕ
own_mac = 2 ∷ 0 ∷ 0 ∷ 0 ∷ 0 ∷ 15 ∷ []

abbrev device : Device
device = record { mac = some own_mac; send = λ frame. ok }

abbrev peer_mac : List ℕ
peer_mac = 2 ∷ 0 ∷ 0 ∷ 0 ∷ 0 ∷ 2 ∷ []

-- Who has 10.0.2.15? asks 10.0.2.2.
abbrev who_has : List ℕ
who_has = arp_packet 167772674 peer_mac 167772687 none 1

who_has_fills_a_frame : length who_has ≡ 60
unfolding arp_packet write_be16
who_has_fills_a_frame = refl

request_is_answered :
    (parse_ethernet_frame 167772687 device net who_has).1.sent
    ≡ arp_packet 167772687 own_mac 167772674 (some peer_mac) 2 ∷ []
unfolding parse_ethernet_frame parse_arp_frame send_arp_packet arp_packet write_be16 read_be16
request_is_answered = refl

one_each : IsSingle net.arp_cache
unfolding IsSingle count
one_each b = elim (Bool-cases (1 == b)) [ inl e ↦ rw e (omega arith) | inr e ↦ rw e (omega arith) ]

parse_frames-IsSingle_example :
    IsSingle (parse_frames 167772687 device net (who_has ∷ who_has ∷ [])).arp_cache
parse_frames-IsSingle_example =
    parse_frames-IsSingle 167772687 device net (who_has ∷ who_has ∷ []) one_each
