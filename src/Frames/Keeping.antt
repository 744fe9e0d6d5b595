-- ===== src/Frames/Keeping.antt =====
-- What the parser of frames of RADKernel/core/RADKernel_runtime.cpp keeps.
use radpx_os.Base.{
  ℕ, ◌+◌, ◌-◌, ◌^◌, ◌≡◌, refl, sym, ◌⊎◌, inl, inr, not, ◌&&◌, ◌||◌, Option, some, List, [], ◌∷◌,
  ltb, ◌==◌, if_elim, option_elim, length, Status, ok, error, invalid_argument, not_found,
  no_memory, timeout, not_supported, already_exists, not_initialized,
}
use mathlib.Core.Path.{subst}
use radpx_os.Kernel.{Ipv4, Kernel}
use radpx_os.Arp.{ArpEntry, update_arp_cache}
use radpx_os.Arp.Caching.{IsSingle, update_arp_cache-IsSingle}
use radpx_os.Frames.{
  Net, Device, parse_arp_frame, parse_udp, parse_icmp, parse_protocol, parse_ipv4_frame,
  parse_ethernet_frame, send_arp_packet, send_icmp_echo_reply, count_reply, count_packet,
  with_kernel, arp_packet, echo_reply, handed, header_length, is_bad_header, read_be16, next,
  address_at, slice, byte,
}

with_kernel_cache : (s : Net) (r : Status × Kernel) → (with_kernel s r).1.arp_cache ≡ s.arp_cache
with_kernel_cache s r = refl

count_reply_cache : (t : Status) (s : Net) → (count_reply t s).1.arp_cache ≡ s.arp_cache
count_reply_cache ok s = refl
count_reply_cache error s = refl
count_reply_cache invalid_argument s = refl
count_reply_cache not_found s = refl
count_reply_cache no_memory s = refl
count_reply_cache timeout s = refl
count_reply_cache not_supported s = refl
count_reply_cache already_exists s = refl
count_reply_cache not_initialized s = refl

count_packet_cache : (t : Status) (s : Net) → (count_packet t s).1.arp_cache ≡ s.arp_cache
count_packet_cache ok s = refl
count_packet_cache error s = refl
count_packet_cache invalid_argument s = refl
count_packet_cache not_found s = refl
count_packet_cache no_memory s = refl
count_packet_cache timeout s = refl
count_packet_cache not_supported s = refl
count_packet_cache already_exists s = refl
count_packet_cache not_initialized s = refl

send_icmp_echo_reply_cache :
    (device : Device) (s : Net) (bs : List ℕ)
    → (send_icmp_echo_reply device s bs).1.arp_cache ≡ s.arp_cache
unfolding send_icmp_echo_reply
send_icmp_echo_reply_cache device s bs =
    let P = λ (r : Status × Net). r.1.arp_cache ≡ s.arp_cache in
    if_elim P
      (ltb (length bs) 42
        || ltb (header_length bs) 20
        || ltb (length bs) (14 + read_be16 bs 16)
        || ltb (read_be16 bs 16) (header_length bs + 8))
      (λ h. refl)
      (λ h.
        option_elim P device.mac (λ e. refl)
          (λ mac e.
            count_reply_cache (device.send (echo_reply mac bs)) (handed (echo_reply mac bs) s)))

send_arp_packet_cache :
    (own : Ipv4) (device : Device) (s : Net) (target : Ipv4) (mac : Option (List ℕ)) (opcode : ℕ)
    → (send_arp_packet own device s target mac opcode).1.arp_cache ≡ s.arp_cache
unfolding send_arp_packet
send_arp_packet_cache own device s target target_mac opcode =
    option_elim (λ (r : Status × Net). r.1.arp_cache ≡ s.arp_cache) device.mac (λ e. refl)
      (λ mac e.
        let packet = arp_packet own mac target target_mac opcode in
        count_packet_cache (device.send packet) (handed packet s))

parse_udp_cache : (s : Net) (bs : List ℕ) → (parse_udp s bs).1.arp_cache ≡ s.arp_cache
parse_udp_cache s bs =
    let P = λ (r : Status × Net). r.1.arp_cache ≡ s.arp_cache in
    let ihl = header_length bs in
    let total = read_be16 bs 16 in
    let size = read_be16 bs (14 + ihl + 4) in
    if_elim P (ltb total (ihl + 8)) (λ h. refl)
      (λ h. if_elim P (ltb size 8 || ltb total (ihl + size)) (λ i. refl) (λ i. refl))

parse_icmp_cache :
    (device : Device) (s : Net) (bs : List ℕ) → (parse_icmp device s bs).1.arp_cache ≡ s.arp_cache
parse_icmp_cache device s bs =
    let P = λ (r : Status × Net). r.1.arp_cache ≡ s.arp_cache in
    if_elim P (ltb (read_be16 bs 16) (header_length bs + 8)) (λ h. refl)
      (λ h.
        if_elim P (byte bs (14 + header_length bs) == 8)
          (λ i. send_icmp_echo_reply_cache device (record s { icmp_rx = next s.icmp_rx }) bs)
          (λ i. refl))

parse_protocol_cache :
    (device : Device) (s : Net) (bs : List ℕ)
    → (parse_protocol device s bs).1.arp_cache ≡ s.arp_cache
parse_protocol_cache device s bs =
    let P = λ (r : Status × Net). r.1.arp_cache ≡ s.arp_cache in
    if_elim P (byte bs 23 == 17) (λ h. parse_udp_cache s bs)
      (λ h. if_elim P (byte bs 23 == 1) (λ i. parse_icmp_cache device s bs) (λ i. refl))

-- The cache after a frame is the one before it, or an update of it.
abbrev Follows : List ArpEntry → Status × Net → Type 0
Follows cache (_, s) =
    (s.arp_cache ≡ cache)
    ⊎ ((a : Ipv4) × (mac : List ℕ) × (s.arp_cache ≡ update_arp_cache cache a mac))

parse_arp_frame-Follows :
    (own : Ipv4) (device : Device) (s : Net) (bs : List ℕ)
    → Follows s.arp_cache (parse_arp_frame own device s bs)
unfolding parse_arp_frame
parse_arp_frame-Follows own device s bs =
    let P = Follows s.arp_cache in
    let mac = slice 22 6 bs in
    let sender = address_at bs 28 in
    let known = record s {
      arp_rx = next s.arp_rx;
      arp_cache = update_arp_cache s.arp_cache sender mac;
    } in
    if_elim P (ltb (length bs) 42) (λ h. inl refl)
      (λ h.
        if_elim P
          (not (
            (read_be16 bs 14 == 1)
            && (read_be16 bs 16 == 2048)
            && (byte bs 18 == 6)
            && (byte bs 19 == 4)))
          (λ i. inl refl)
          (λ i.
            if_elim P ((read_be16 bs 20 == 1) && (address_at bs 38 == own))
              (λ j. inr (sender, mac, send_arp_packet_cache own device known sender (some mac) 2))
              (λ j. inr (sender, mac, refl))))

parse_ipv4_frame-Follows :
    (own : Ipv4) (device : Device) (s : Net) (bs : List ℕ)
    → Follows s.arp_cache (parse_ipv4_frame own device s bs)
unfolding parse_ipv4_frame
parse_ipv4_frame-Follows own device s bs =
    let P = Follows s.arp_cache in
    let mac = slice 6 6 bs in
    let source = address_at bs 26 in
    let known = record s { arp_cache = update_arp_cache s.arp_cache source mac } in
    if_elim P (ltb (length bs) 34 || is_bad_header bs) (λ h. inl refl)
      (λ h.
        if_elim P (not (address_at bs 30 == own) && not (address_at bs 30 == 2 ^ 32 - 1))
          (λ i. inr (source, mac, refl))
          (λ i. inr (
            source,
            mac,
            parse_protocol_cache device (record known { ipv4_rx = next known.ipv4_rx }) bs,
          )))

parse_ethernet_frame-Follows :
    (own : Ipv4) (device : Device) (s : Net) (bs : List ℕ)
    → Follows s.arp_cache (parse_ethernet_frame own device s bs)
unfolding parse_ethernet_frame
parse_ethernet_frame-Follows own device s bs =
    let P = Follows s.arp_cache in
    let counted = record s { ethernet_rx = next s.ethernet_rx } in
    if_elim P (ltb (length bs) 14) (λ h. inl refl)
      (λ h.
        if_elim P (read_be16 bs 12 == 2054) (λ i. parse_arp_frame-Follows own device counted bs)
          (λ i.
            if_elim P (read_be16 bs 12 == 2048)
              (λ j. parse_ipv4_frame-Follows own device counted bs) (λ j. inl refl)))

-- The frames that arrive, one after the other.
unfoldable pub parse_frames : Ipv4 → Device → Net → List (List ℕ) → Net
unfolding parse_ethernet_frame
parse_frames own device s [] = s
parse_frames own device s (frame ∷ frames) =
    parse_frames own device (parse_ethernet_frame own device s frame).1 frames

-- Whatever frames arrive, the ARP cache keeps at most one valid entry for an address.
pub parse_frames-IsSingle :
    (own : Ipv4) (device : Device) (s : Net) (frames : List (List ℕ))
    → IsSingle s.arp_cache
    → IsSingle (parse_frames own device s frames).arp_cache
unfolding parse_frames
parse_frames-IsSingle own device s [] single = single
parse_frames-IsSingle own device s (frame ∷ frames) single =
    parse_frames-IsSingle own device (parse_ethernet_frame own device s frame).1 frames
      (elim (parse_ethernet_frame-Follows own device s frame) [
        | inl same ↦ subst IsSingle (sym same) single
        | inr (a, mac, updated) ↦
            subst IsSingle (sym updated) (update_arp_cache-IsSingle s.arp_cache a mac single)
      ])
