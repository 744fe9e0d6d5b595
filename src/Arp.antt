-- ===== src/Arp.antt =====
-- The ARP cache of RADKernel/core/RADKernel_runtime.cpp: find_arp_entry, update_arp_cache and
-- arp_entry_count. An IPv4 address is its number of 32 bits, a hardware address its bytes.
pub mod Caching
use radpx_os.Base.{
  ℕ, Bool, true, false, not, ◌&&◌, Option, none, some, List, [], ◌==◌, if◌then◌else◌, set, get_or,
  find_index, count,
}
use radpx_os.Kernel.{Ipv4}

pub record ArpEntry : Type 0 where
  pub ipv4 : Ipv4
  pub mac : List ℕ
  pub valid : Bool

abbrev pub zero_entry : ArpEntry
zero_entry = record { ipv4 = 0; mac = []; valid = false }

abbrev pub entry_at : List ArpEntry → ℕ → ArpEntry
entry_at cache i = get_or cache i zero_entry

abbrev pub is_entry : Ipv4 → ArpEntry → Bool
is_entry address e = e.valid && (e.ipv4 == address)

unfoldable pub find_arp_entry : List ArpEntry → Ipv4 → Option ℕ
find_arp_entry cache address = find_index (is_entry address) cache

abbrev pub is_invalid : ArpEntry → Bool
is_invalid e = not e.valid

abbrev pub is_valid : ArpEntry → Bool
is_valid e = e.valid

-- The entry that is written: the one of the address, else the first that is not valid, else the first.
unfoldable pub arp_slot : List ArpEntry → Ipv4 → ℕ
unfolding find_arp_entry
arp_slot cache address = elim (find_arp_entry cache address) [
  | some i ↦ i
  | none ↦ elim (find_index is_invalid cache) [ some i ↦ i | none ↦ 0 ]
]

abbrev pub fresh_entry : Ipv4 → List ℕ → ArpEntry
fresh_entry address mac = record { ipv4 = address; mac = mac; valid = true }

unfoldable pub update_arp_cache : List ArpEntry → Ipv4 → List ℕ → List ArpEntry
unfolding arp_slot
update_arp_cache cache address mac =
    if address == 0 then cache else set cache (arp_slot cache address) (fresh_entry address mac)

unfoldable pub arp_entry_count : List ArpEntry → ℕ
arp_entry_count cache = count is_valid cache
