-- ===== src/Tests/ArpTests.antt =====
-- The ARP cache of RADKernel/core/RADKernel_runtime.cpp at concrete caches.
use radpx_os.Base.{ℕ, ◌≡◌, refl, List, [], ◌∷◌, find_index, count}
use radpx_os.Arp.{ArpEntry, zero_entry, fresh_entry, update_arp_cache, arp_entry_count}

abbrev router : List ℕ
router = 2 ∷ 0 ∷ 0 ∷ 0 ∷ 0 ∷ 1 ∷ []

abbrev printer : List ℕ
printer = 2 ∷ 0 ∷ 0 ∷ 0 ∷ 0 ∷ 7 ∷ []

-- 10.0.2.2 is known, two entries are free.
abbrev known_router : List ArpEntry
known_router = fresh_entry 167772674 router ∷ zero_entry ∷ zero_entry ∷ []

count_after_update : arp_entry_count (update_arp_cache known_router 167772675 printer) ≡ 2
unfolding arp_entry_count update_arp_cache count find_index
count_after_update = refl

zero_is_ignored : update_arp_cache known_router 0 printer ≡ known_router
unfolding update_arp_cache
zero_is_ignored = refl

first_is_replaced :
    update_arp_cache (fresh_entry 1 router ∷ fresh_entry 2 router ∷ []) 3 printer
    ≡ fresh_entry 3 printer ∷ fresh_entry 2 router ∷ []
unfolding update_arp_cache find_index
first_is_replaced = refl
