-- ===== src/Frames.antt =====
-- The frames that the network brings, of RADKernel/core/RADKernel_runtime.cpp: ipv4_checksum,
-- send_arp_packet, parse_arp_frame, parse_ipv4_frame, parse_ethernet_frame and send_icmp_echo_reply. A
-- frame is the list of its bytes. The address of this machine, which the build configures, is the
-- argument `own`. The device is an argument: its hardware address, none where it cannot be opened, and
-- what it says of a frame that is sent. Frames given to it are recorded in `sent`.
pub mod Checksum
pub mod Keeping
use radpx_os.Base.{
  ℕ, zero, suc, ◌+◌, ◌-◌, ◌*◌, ◌/◌, ◌%◌, ◌^◌, Bool, not, ◌&&◌, ◌||◌, Option, none, some, List, [],
  ◌∷◌, ◌++◌, ltb, ◌==◌, if◌then◌else◌, length, get_or, take, drop, replicate, Status, ok,
  invalid_argument, not_found, not_supported,
}
use radpx_os.Kernel.{Ipv4, Kernel}
use radpx_os.Arp.{ArpEntry, update_arp_cache}
use radpx_os.Sockets.Datagrams.{dispatch_udp_datagram}

pub record Net : Type 0 where
  pub kernel : Kernel
  pub arp_cache : List ArpEntry
  pub ethernet_rx : ℕ
  pub ethernet_tx : ℕ
  pub arp_rx : ℕ
  pub ipv4_rx : ℕ
  pub ipv4_tx : ℕ
  pub udp_rx : ℕ
  pub icmp_rx : ℕ
  pub icmp_tx : ℕ
  pub arp_tx : ℕ
  pub sent : List (List ℕ)

pub record Device : Type 0 where
  pub mac : Option (List ℕ)
  pub send : List ℕ → Status

abbrev pub next : ℕ → ℕ
next n = (n + 1) % 2 ^ 64

abbrev pub byte : List ℕ → ℕ → ℕ
byte bs i = get_or bs i 0

abbrev pub slice : ℕ → ℕ → List ℕ → List ℕ
slice from size bs = take size (drop from bs)

unfoldable pub read_be16 : List ℕ → ℕ → ℕ
read_be16 bs i = byte bs i * 2 ^ 8 + byte bs (i + 1)

unfoldable pub write_be16 : ℕ → List ℕ
write_be16 n = (n / 2 ^ 8) % 2 ^ 8 ∷ n % 2 ^ 8 ∷ []

abbrev pub address_at : List ℕ → ℕ → Ipv4
address_at bs i =
    byte bs i * 2 ^ 24 + byte bs (i + 1) * 2 ^ 16 + byte bs (i + 2) * 2 ^ 8 + byte bs (i + 3)

-- The sum of the words, a last byte alone being the high one.
unfoldable pub sum_words : List ℕ → ℕ
sum_words [] = 0
sum_words (a ∷ []) = a * 2 ^ 8
sum_words (a ∷ b ∷ bs) = a * 2 ^ 8 + b + sum_words bs

-- The loop that adds the carries; two rounds are enough for a sum of 32 bits.
unfoldable pub fold_carries : ℕ → ℕ → ℕ
fold_carries zero sum = sum
fold_carries (suc rounds) sum =
    let rest = fold_carries rounds (sum % 2 ^ 16 + sum / 2 ^ 16) in
    if sum / 2 ^ 16 == 0 then sum else rest

unfoldable pub ipv4_checksum : List ℕ → ℕ
unfolding sum_words fold_carries
ipv4_checksum bs = (2 ^ 16 - 1) - fold_carries 2 (sum_words bs % 2 ^ 32) % 2 ^ 16

-- `memcpy` into the frame at an offset.
abbrev put : List ℕ → ℕ → List ℕ → List ℕ
put frame at bs = take at frame ++ bs ++ drop (at + length bs) frame

abbrev pub header_length : List ℕ → ℕ
header_length bs = (byte bs 14 % 2 ^ 4) * 4

-- The request with its addresses swapped, and both checksums written.
unfoldable pub echo_reply : List ℕ → List ℕ → List ℕ
unfolding read_be16 write_be16 ipv4_checksum
echo_reply mac request =
    let ihl = header_length request in
    let total = read_be16 request 16 in
    let icmp = 14 + ihl in
    let copied = slice 6 6 request ++ mac ++ 8 ∷ 0 ∷ slice 14 total request in
    let swapped = put (put copied 26 (slice 30 4 request)) 30 (slice 26 4 request) in
    let bare = put (put swapped 22 (64 ∷ [])) 24 (0 ∷ 0 ∷ []) in
    let summed = put bare 24 (write_be16 (ipv4_checksum (slice 14 ihl bare))) in
    let reply = put (put summed icmp (0 ∷ [])) (icmp + 2) (0 ∷ 0 ∷ []) in
    put reply (icmp + 2) (write_be16 (ipv4_checksum (slice icmp (total - ihl) reply)))

abbrev pub handed : List ℕ → Net → Net
handed frame s = record s { sent = s.sent ++ frame ∷ [] }

abbrev pub count_reply : Status → Net → Status × Net
count_reply ok s = (
  ok,
  record s { ethernet_tx = next s.ethernet_tx; ipv4_tx = next s.ipv4_tx; icmp_tx = next s.icmp_tx },
)
count_reply failure s = (failure, s)

unfoldable pub send_icmp_echo_reply : Device → Net → List ℕ → Status × Net
unfolding read_be16 echo_reply
send_icmp_echo_reply device s request =
    let ihl = header_length request in
    let total = read_be16 request 16 in
    if ltb (length request) 42
      || ltb ihl 20
      || ltb (length request) (14 + total)
      || ltb total (ihl + 8)
    then (invalid_argument, s)
    else elim device.mac [
      | none ↦ (not_found, s)
      | some mac ↦
          let reply = echo_reply mac request in count_reply (device.send reply) (handed reply s)
    ]

abbrev address_bytes : Ipv4 → List ℕ
address_bytes a = (a / 2 ^ 24) % 2 ^ 8 ∷ (a / 2 ^ 16) % 2 ^ 8 ∷ (a / 2 ^ 8) % 2 ^ 8 ∷ a % 2 ^ 8 ∷ []

abbrev mac_or : ℕ → Option (List ℕ) → List ℕ
mac_or filler none = replicate 6 filler
mac_or filler (some mac) = mac

-- The 60 bytes of a packet; one without a target goes to every machine.
unfoldable pub arp_packet : Ipv4 → List ℕ → Ipv4 → Option (List ℕ) → ℕ → List ℕ
unfolding write_be16
arp_packet own mac target target_mac opcode =
    mac_or 255 target_mac
    ++ mac
    ++ 8 ∷ 6 ∷ write_be16 1
    ++ write_be16 2048
    ++ 6 ∷ 4 ∷ write_be16 opcode
    ++ mac
    ++ address_bytes own
    ++ mac_or 0 target_mac
    ++ address_bytes target
    ++ replicate 18 0

abbrev pub count_packet : Status → Net → Status × Net
count_packet ok s = (ok, record s { ethernet_tx = next s.ethernet_tx; arp_tx = next s.arp_tx })
count_packet failure s = (failure, s)

unfoldable pub send_arp_packet : Ipv4 → Device → Net → Ipv4 → Option (List ℕ) → ℕ → Status × Net
unfolding arp_packet
send_arp_packet own device s target target_mac opcode = elim device.mac [
  | none ↦ (not_found, s)
  | some mac ↦
      let packet = arp_packet own mac target target_mac opcode in
      count_packet (device.send packet) (handed packet s)
]

unfoldable pub parse_arp_frame : Ipv4 → Device → Net → List ℕ → Status × Net
unfolding read_be16 update_arp_cache send_arp_packet
parse_arp_frame own device s bs =
    let mac = slice 22 6 bs in
    let sender = address_at bs 28 in
    let known = record s {
      arp_rx = next s.arp_rx;
      arp_cache = update_arp_cache s.arp_cache sender mac;
    } in
    if ltb (length bs) 42
    then (invalid_argument, s)
    else if not (
        (read_be16 bs 14 == 1)
        && (read_be16 bs 16 == 2048)
        && (byte bs 18 == 6)
        && (byte bs 19 == 4))
    then (not_supported, s)
    else if (read_be16 bs 20 == 1) && (address_at bs 38 == own)
    then (ok, (send_arp_packet own device known sender (some mac) 2).1)
    else (ok, known)

abbrev pub with_kernel : Net → Status × Kernel → Status × Net
with_kernel s (status, k) = (status, record s { kernel = k })

-- The UDP packet of a frame whose IPv4 header is in order.
abbrev pub parse_udp : Net → List ℕ → Status × Net
parse_udp s bs =
    let ihl = header_length bs in
    let total = read_be16 bs 16 in
    let udp = 14 + ihl in
    let size = read_be16 bs (udp + 4) in
    if ltb total (ihl + 8)
    then (invalid_argument, s)
    else if ltb size 8 || ltb total (ihl + size)
    then (invalid_argument, s)
    else with_kernel (record s { udp_rx = next s.udp_rx })
        (dispatch_udp_datagram s.kernel (address_at bs 26) (read_be16 bs udp)
          (read_be16 bs (udp + 2)) (slice (udp + 8) (size - 8) bs))

abbrev pub parse_icmp : Device → Net → List ℕ → Status × Net
parse_icmp device s bs =
    let ihl = header_length bs in
    let counted = record s { icmp_rx = next s.icmp_rx } in
    if ltb (read_be16 bs 16) (ihl + 8)
    then (invalid_argument, s)
    else if byte bs (14 + ihl) == 8
    then send_icmp_echo_reply device counted bs
    else (not_supported, counted)

abbrev pub parse_protocol : Device → Net → List ℕ → Status × Net
parse_protocol device s bs =
    if byte bs 23 == 17
    then parse_udp s bs
    else if byte bs 23 == 1
    then parse_icmp device s bs
    else (not_supported, s)

-- The guards on the header.
unfoldable pub is_bad_header : List ℕ → Bool
unfolding read_be16 ipv4_checksum
is_bad_header bs =
    let ihl = header_length bs in
    let total = read_be16 bs 16 in
    not (byte bs 14 / 2 ^ 4 == 4)
    || ltb ihl 20
    || ltb (length bs) (14 + ihl)
    || ltb total ihl
    || ltb (length bs) (14 + total)
    || not (ipv4_checksum (slice 14 ihl bs) == 0)

unfoldable pub parse_ipv4_frame : Ipv4 → Device → Net → List ℕ → Status × Net
unfolding read_be16 is_bad_header update_arp_cache dispatch_udp_datagram send_icmp_echo_reply
parse_ipv4_frame own device s bs =
    let known = record s {
      arp_cache = update_arp_cache s.arp_cache (address_at bs 26) (slice 6 6 bs);
    } in
    if ltb (length bs) 34 || is_bad_header bs
    then (invalid_argument, s)
    else if not (address_at bs 30 == own) && not (address_at bs 30 == 2 ^ 32 - 1)
    then (not_supported, known)
    else parse_protocol device (record known { ipv4_rx = next known.ipv4_rx }) bs

unfoldable pub parse_ethernet_frame : Ipv4 → Device → Net → List ℕ → Status × Net
unfolding read_be16 parse_arp_frame parse_ipv4_frame
parse_ethernet_frame own device s bs =
    let counted = record s { ethernet_rx = next s.ethernet_rx } in
    if ltb (length bs) 14
    then (invalid_argument, s)
    else if read_be16 bs 12 == 2054
    then parse_arp_frame own device counted bs
    else if read_be16 bs 12 == 2048
    then parse_ipv4_frame own device counted bs
    else (not_supported, counted)
