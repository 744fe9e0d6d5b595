-- ===== src/Arp/Caching.antt =====
-- The ARP cache of RADKernel/core/RADKernel_runtime.cpp as a map from addresses.
use radpx_os.Base.{
  ℕ, zero, suc, ◌+◌, ◌≤◌, ◌<◌, ◌≡◌, refl, sym, ap, ◌∙◌, ◌⊎◌, inl, inr, true, false, Option, none,
  some, List, [], ◌∷◌, arith, ◌==◌, if◌then◌else◌, if_elim, Bool-cases, Option-cases, length, set,
  bit, find_index, count, find_index-lt, find_index-holds, find_index-set, find_index-fresh,
  count-set, find_index_total_of_count, get_or-set_self, get_or-set_ne,
}
use mathlib.Core.Path.{subst}
use radpx_os.Kernel.{Ipv4}
use radpx_os.Arp.{
  ArpEntry, zero_entry, entry_at, is_entry, find_arp_entry, is_invalid, arp_slot, fresh_entry,
  update_arp_cache,
}

-- The hardware address that the cache has for an address.
unfoldable pub mac_of : List ArpEntry → Ipv4 → Option (List ℕ)
unfolding find_arp_entry
mac_of cache address = elim (find_arp_entry cache address) [
  | none ↦ none
  | some i ↦ some (entry_at cache i).mac
]

-- What the cache has for another address stays when the entry that is written was not its entry.
kept :
    (cache : List ArpEntry) (i : ℕ) (a b : Ipv4) (mac : List ℕ)
    → (b == a) ≡ false
    → is_entry b (entry_at cache i) ≡ false
    → mac_of (set cache i (fresh_entry a mac)) b ≡ mac_of cache b
unfolding mac_of find_arp_entry
kept cache i a b mac differ other =
    let e = fresh_entry a mac in
    let stays = find_index-set (is_entry b) zero_entry cache i e (ground (arith, differ, other)) in
    elim (Option-cases (find_index (is_entry b) cache)) [
      | inl none_found ↦ rw (mac_of, find_arp_entry, stays, none_found) refl
      | inr (j, found) ↦
          let mine = find_index-holds (is_entry b) zero_entry cache j found in
          let apart : ¬ (i ≡ j) =
            (λ same. cc (ap (λ n. is_entry b (entry_at cache n)) same, mine, other)) in
          rw (mac_of, find_arp_entry, stays, found, get_or-set_ne cache i j e zero_entry apart) refl
    ]

-- What `update_arp_cache` has done to the map when it wrote entry `i`.
written :
    (cache : List ArpEntry) (i : ℕ) (a b : Ipv4) (mac : List ℕ)
    → i < length cache
    → find_index (is_entry a) (set cache i (fresh_entry a mac)) ≡ some i
    → ((b == a) ≡ false → is_entry b (entry_at cache i) ≡ false)
    → mac_of (set cache i (fresh_entry a mac)) b ≡ (if b == a then some mac else mac_of cache b)
unfolding mac_of find_arp_entry
written cache i a b mac inside found others = elim (Bool-cases (b == a)) [
  | inl same ↦
      let equal : b ≡ a = ground (arith, same) in
      rw
        (
          same,
          equal,
          mac_of,
          find_arp_entry,
          found,
          get_or-set_self cache i (fresh_entry a mac) zero_entry inside,
        )
        refl
  | inr differ ↦ rw differ (kept cache i a b mac differ (others differ))
]

-- Where the cache has an entry for an address that is not zero, or an entry that is not valid, an update
-- is the update of a map: the address has the new hardware address, and every other one what it had.
pub update-mac_of :
    (cache : List ArpEntry) (a b : Ipv4) (mac : List ℕ) (i : ℕ)
    → ¬ (a ≡ 0)
    → (find_arp_entry cache a ≡ some i) ⊎ (find_index is_invalid cache ≡ some i)
    → mac_of (update_arp_cache cache a mac) b ≡ (if b == a then some mac else mac_of cache b)
unfolding update_arp_cache arp_slot find_arp_entry
update-mac_of cache a b mac i some_address room =
    let e = fresh_entry a mac in
    let test : (a == 0) ≡ false = ground (arith, some_address) in
    let mine : is_entry a e ≡ true = ground arith in
    elim (Option-cases (find_index (is_entry a) cache)) [
      | inr (j, known) ↦
          let holds = find_index-holds (is_entry a) zero_entry cache j known in
          let stays = find_index-set (is_entry a) zero_entry cache j e (mine ∙ sym holds) in
          rw (test, arp_slot, find_arp_entry, known)
            (written cache j a b mac (find_index-lt (is_entry a) cache j known) (stays ∙ known)
              (λ differ. ground (arith, holds, differ)))
      | inl unknown ↦ elim room [
        | inl known ↦ cc (known, unknown)
        | inr free ↦
            let inside = find_index-lt is_invalid cache i free in
            let invalid = find_index-holds is_invalid zero_entry cache i free in
            rw (test, arp_slot, find_arp_entry, unknown, free)
              (written cache i a b mac inside
                (find_index-fresh (is_entry a) zero_entry cache i e unknown inside mine)
                (λ differ. ground (arith, invalid)))
      ]
    ]

-- No address has two valid entries.
unfoldable pub IsSingle : List ArpEntry → Type 0
IsSingle cache = (b : Ipv4) → count (is_entry b) cache ≤ 1

nat_cases : (n : ℕ) → (n ≡ 0) ⊎ (0 < n)
nat_cases zero = inl refl
nat_cases (suc n) = inr (omega arith)

-- An entry written over the one of its address, or when its address has none, leaves the cache single.
set-IsSingle :
    (cache : List ArpEntry) (i : ℕ) (a b : Ipv4) (mac : List ℕ)
    → i < length cache
    → IsSingle cache
    → (find_index (is_entry a) cache ≡ none) ⊎ (is_entry a (entry_at cache i) ≡ true)
    → count (is_entry b) (set cache i (fresh_entry a mac)) ≤ 1
unfolding IsSingle
set-IsSingle cache i a b mac inside single fits =
    let e = fresh_entry a mac in
    let counted = count-set (is_entry b) zero_entry cache i e inside in
    elim (Bool-cases (b == a)) [
      | inr differ ↦
          let new : is_entry b e ≡ false = ground (arith, differ) in
          let now =
            subst
              (λ t.
                count (is_entry b) (set cache i e) + bit (is_entry b (entry_at cache i))
                ≡ count (is_entry b) cache + bit t)
              new counted in
          omega (arith, now, single b)
      | inl same ↦
          let equal : a ≡ b = ground (arith, same) in
          let new : is_entry b e ≡ true = ground (arith, same) in
          let now =
            subst
              (λ t.
                count (is_entry b) (set cache i e) + bit (is_entry b (entry_at cache i))
                ≡ count (is_entry b) cache + bit t)
              new counted in
          elim fits [
            | inl unknown ↦
                let zero_count : count (is_entry b) cache ≡ 0 =
                  elim (nat_cases (count (is_entry b) cache)) [
                    | inl z ↦ z
                    | inr pos ↦
                        let (j, found) = find_index_total_of_count (is_entry b) cache pos in
                        cc (found, unknown, equal)
                  ] in
                omega (arith, now, zero_count)
            | inr known ↦
                let held : is_entry b (entry_at cache i) ≡ true =
                  subst (λ x. is_entry x (entry_at cache i) ≡ true) equal known in
                let now_held =
                  subst
                    (λ t. count (is_entry b) (set cache i e) + bit t ≡ count (is_entry b) cache + 1)
                    held now in
                omega (arith, now_held, single b)
          ]
    ]

-- An update keeps the cache without two entries for an address, also when it writes over an entry.
pub update_arp_cache-IsSingle :
    (cache : List ArpEntry) (a : Ipv4) (mac : List ℕ)
    → IsSingle cache
    → IsSingle (update_arp_cache cache a mac)
unfolding IsSingle update_arp_cache arp_slot find_arp_entry
update_arp_cache-IsSingle cache a mac single b =
    let P = λ (c : List ArpEntry). count (is_entry b) c ≤ 1 in
    if_elim P (a == 0) (λ h. single b)
      (λ h. elim (Option-cases (find_index (is_entry a) cache)) [
        | inr (j, known) ↦
            rw (arp_slot, find_arp_entry, known)
              (set-IsSingle cache j a b mac (find_index-lt (is_entry a) cache j known) single
                (inr (find_index-holds (is_entry a) zero_entry cache j known)))
        | inl unknown ↦ elim (Option-cases (find_index is_invalid cache)) [
          | inr (i, free) ↦
              rw (arp_slot, find_arp_entry, unknown, free)
                (set-IsSingle cache i a b mac (find_index-lt is_invalid cache i free) single
                  (inl unknown))
          | inl full ↦
              rw (arp_slot, find_arp_entry, unknown, full) (over_first cache single unknown)
        ]
      ])
  where
    over_first :
        (c : List ArpEntry)
        → IsSingle c
        → find_index (is_entry a) c ≡ none
        → count (is_entry b) (set c 0 (fresh_entry a mac)) ≤ 1
    over_first [] single unknown = single b
    over_first (x ∷ c) single unknown =
        set-IsSingle (x ∷ c) 0 a b mac (omega arith) single (inl unknown)
