-- ===== src/Log/Window.antt =====
-- What the log of RADKernel/core/RADKernel_runtime.cpp keeps: the newest entries, each once and in
-- order.
use radpx_os.Base.{
  ℕ, zero, suc, ◌+◌, ◌-◌, ◌%◌, ◌^◌, ◌≤◌, ◌<◌, ◌≡◌, refl, sym, ap, ◌∙◌, inl, inr, true, some, List,
  [], ◌∷◌, arith, ltb, ◌==◌, if◌then◌else◌, if_elim, Bool-cases, length, set, length-set, get_or,
  take, drop, replicate, drop-add, drop-all, length-replicate, get_or-set_self, get_or-set_ne,
  CString, codes,
}
use native.Mathlib.Nat.{mod-add-mod, mod-eq_of_lt, mod-lt}
use mathlib.Core.Path.{ap₂}
use radpx_os.Base.Ring.{offset-ne}
use radpx_os.Log.{
  LogEntry, LogRecord, zero_log, Logs, rad_log_write, first_kept, is_wanted, collect, rad_log_read,
  max_log_entries,
}

-- What a message is given as: a time, a level, a category and a text.
abbrev pub Message : Type 0
Message = ℕ × ℕ × CString × CString

-- The entry of message number `n`: a category that is empty is `kernel`, and the texts are cut.
abbrev pub entry_of : ℕ → Message → LogEntry
entry_of n m = record {
  sequence = n;
  time_millis = m.0;
  level = m.1;
  category = take 31 (if length (m.2) == 0 then codes "kernel" else m.2);
  message = take 191 (m.3);
}

abbrev record_for : ℕ → Message → LogRecord
record_for n m = record { entry = entry_of n m; used = true }

abbrev record_of : List LogRecord → ℕ → LogRecord
record_of records sequence = get_or records (sequence % max_log_entries) zero_log

-- Each of the newest messages stands in its slot; `M n` is message number `n`.
record IsKept (M : ℕ → Message) (s : Logs) : Type 0 where
  whole : length s.records ≡ max_log_entries
  kept : (n : ℕ) → first_kept s.next ≤ n → n ≤ s.next → record_of s.records n ≡ record_for n (M n)

apart : (n m : ℕ) → n < m → m < n + max_log_entries → ¬ (m % max_log_entries ≡ n % max_log_entries)
apart n m lt near e =
    let h = n % max_log_entries in
    let d = m - n - 1 in
    let there : n + suc d ≡ m = omega arith in
    offset-ne max_log_entries h d (mod-lt n (omega arith)) (omega arith)
      (mod-add-mod n max_log_entries (suc d) ∙ ap (λ x. x % max_log_entries) there ∙ e)

keeps :
    (M : ℕ → Message) (s : Logs)
    → IsKept M s
    → IsKept M (record {
      records =
          set s.records ((s.next + 1) % max_log_entries) (record_for (s.next + 1) (M (s.next + 1)));
      next = s.next + 1;
    })
keeps M s v = record {
  whole = length-set s.records slot r ∙ v.whole;
  kept = λ n from upto. elim (Bool-cases (n == s.next + 1)) [
    | inl q ↦
        let newest : n ≡ s.next + 1 = ground arith in
        rw newest (get_or-set_self s.records slot r zero_log inside)
    | inr q ↦
        let older : n < s.next + 1 = ground arith in
        let near : s.next + 1 < n + max_log_entries = ground arith in
        get_or-set_ne s.records slot (n % max_log_entries) r zero_log
          (apart n (s.next + 1) older near)
        ∙ v.kept n (ground arith) (ground arith)
  ];
}
  where
    r : LogRecord
    r = record_for (s.next + 1) (M (s.next + 1))

    slot : ℕ
    slot = (s.next + 1) % max_log_entries

    inside : slot < length s.records
    inside = rw v.whole (mod-lt (s.next + 1) (omega arith))

-- A message that is written keeps the log so, until the counter has gone through 64 bits.
rad_log_write-IsKept :
    (M : ℕ → Message) (s : Logs) (m : Message)
    → IsKept M s
    → s.next + 1 < 2 ^ 64
    → M (s.next + 1) ≡ m
    → IsKept M (rad_log_write s (m.0) (m.1) (m.2) (some (m.3))).1
unfolding rad_log_write
rad_log_write-IsKept M s m v lt same =
    let no_wrap : (s.next + 1) % 2 ^ 64 ≡ s.next + 1 = mod-eq_of_lt lt in
    rw (no_wrap, ← same) (keeps M s v)

-- The entries of the messages from number `first` on, `rounds` of them.
abbrev listed : (ℕ → Message) → ℕ → ℕ → List LogEntry
listed M first zero = []
listed M first (suc rounds) = entry_of first (M first) ∷ listed M (suc first) rounds

-- The entries from `first` on that are newer than `after`.
collect-listed :
    (M : ℕ → Message) (records : List LogRecord) (after first rounds : ℕ)
    → ((n : ℕ) → first ≤ n → n < first + rounds → record_of records n ≡ record_for n (M n))
    → collect records after first rounds ≡ drop (after + 1 - first) (listed M first rounds)
unfolding collect
collect-listed M records after first zero held = sym (drop-all (after + 1 - first) [] (omega arith))
collect-listed M records after first (suc rounds) held =
    let here = held first (omega arith) (omega arith) in
    let rest =
      collect-listed M records after (suc first) rounds
        (λ n lo hi. held n (omega arith) (omega arith)) in
    let P = λ (es : List LogEntry). es ≡ drop (after + 1 - first) (listed M first (suc rounds)) in
    rw here (
      if_elim P (is_wanted (record_for first (M first)) first after)
        (λ h.
          let now : after + 1 - first ≡ 0 = ground arith in
          let later : after + 1 - suc first ≡ 0 = omega arith in
          rw now (
            ap (λ es. entry_of first (M first) ∷ es)
              (rest ∙ ap (λ k. drop k (listed M (suc first) rounds)) later)))
        (λ h.
          let past : after + 1 - first ≡ suc (after + 1 - suc first) = ground arith in
          rw past rest))

abbrev pub log_all : Logs → List Message → Logs
log_all s [] = s
log_all s ((time, level, category, message) ∷ ms) =
    log_all (rad_log_write s time level category (some message)).1 ms

-- `memset` of the log.
abbrev pub empty_log : Logs
empty_log = record { records = replicate max_log_entries zero_log; next = 0 }

empty_log-IsKept : (M : ℕ → Message) → IsKept M empty_log
empty_log-IsKept M = record {
  whole = length-replicate max_log_entries zero_log;
  kept = λ n from upto. absurd (omega arith);
}

abbrev no_message : Message
no_message = (0, 0, [], [])

log_all-IsKept :
    (M : ℕ → Message) (ms : List Message) (s : Logs)
    → IsKept M s
    → s.next + length ms < 2 ^ 64
    → ((i n : ℕ) → i < length ms → n ≡ s.next + 1 + i → M n ≡ get_or ms i no_message)
    → IsKept M (log_all s ms) × ((log_all s ms).next ≡ s.next + length ms)
unfolding rad_log_write
log_all-IsKept M [] s v lt given = (v, omega arith)
log_all-IsKept M ((time, level, category, message) ∷ ms) s v lt given =
    let one : s.next + 1 < 2 ^ 64 = omega arith in
    let no_wrap : (s.next + 1) % 2 ^ 64 ≡ s.next + 1 = mod-eq_of_lt one in
    let m : Message = (time, level, category, message) in
    let s' = (rad_log_write s time level category (some message)).1 in
    let first = given 0 (s.next + 1) (omega arith) (omega arith) in
    let (kept, next) =
      log_all-IsKept M ms s' (rad_log_write-IsKept M s m v one first) (rw no_wrap (omega arith))
        (λ i n lt e. given (suc i) n (omega arith) (omega (arith, e, no_wrap))) in
    (kept, next ∙ ap (λ n. n + length ms) no_wrap ∙ omega arith)

-- The entries of all messages, numbered from `n` on.
abbrev pub numbered : ℕ → List Message → List LogEntry
numbered n [] = []
numbered n (m ∷ ms) = entry_of n m ∷ numbered (suc n) ms

listed-numbered :
    (M : ℕ → Message) (n : ℕ) (ms : List Message)
    → ((i : ℕ) → i < length ms → M (n + i) ≡ get_or ms i no_message)
    → listed M n (length ms) ≡ numbered n ms
listed-numbered M n [] given = refl
listed-numbered M n (m ∷ ms) given =
    let zeroth : n + 0 ≡ n = omega arith in
    let here : M n ≡ m = ap M (sym zeroth) ∙ given 0 (omega arith) in
    ap₂ ◌∷◌ (ap (entry_of n) here) (
      listed-numbered M (suc n) ms (λ i lt.
        let next : suc n + i ≡ n + suc i = omega arith in ap M next ∙ given (suc i) (omega arith)))

listed-drop :
    (M : ℕ → Message) (d n rounds : ℕ)
    → d ≤ rounds
    → listed M (n + d) (rounds - d) ≡ drop d (listed M n rounds)
listed-drop M zero n rounds le =
    let same : n + 0 ≡ n = omega arith in
    let all : rounds - 0 ≡ rounds = omega arith in ap₂ (listed M) same all
listed-drop M (suc d) n zero le = absurd (omega arith)
listed-drop M (suc d) n (suc rounds) le =
    let same : n + suc d ≡ suc n + d = omega arith in
    let less : suc rounds - suc d ≡ rounds - d = omega arith in
    ap₂ (listed M) same less ∙ listed-drop M d (suc n) rounds (omega arith)

-- How many of the messages a read passes over: those up to number `after`, and all but 256.
abbrev pub passed_over : ℕ → ℕ → ℕ
passed_over total after = if ltb after (total - 256) then total - 256 else after

collected :
    (M : ℕ → Message) (s : Logs) (ms : List Message) (after : ℕ)
    → IsKept M s
    → s.next ≡ length ms
    → ((i : ℕ) → i < length ms → M (1 + i) ≡ get_or ms i no_message)
    → collect s.records after (first_kept s.next) (s.next + 1 - first_kept s.next)
      ≡ drop (passed_over (length ms) after) (numbered 1 ms)
collected M s ms after v total given =
    let len = length ms in
    let first = first_kept len in
    let gone = len - 256 in
    let start : first ≡ 1 + gone = ground arith in
    let left : len + 1 - first ≡ len - gone = omega (arith, start) in
    let skipped : gone + (after + 1 - first) ≡ passed_over len after = ground (arith, start) in
    let found =
      collect-listed M s.records after first (len + 1 - first)
        (λ n lo hi. v.kept n (rw total lo) (omega (arith, total, start, left))) in
    let shown : listed M first (len + 1 - first) ≡ drop gone (numbered 1 ms) =
      ap₂ (listed M) start left
      ∙ listed-drop M gone 1 len (omega arith)
      ∙ ap (drop gone) (listed-numbered M 1 ms given) in
    rw total (
      found
      ∙ ap (drop (after + 1 - first)) shown
      ∙ drop-add gone (after + 1 - first) (numbered 1 ms)
      ∙ ap (λ k. drop k (numbered 1 ms)) skipped)

-- After any messages, fewer than 2 ^ 64, written to an empty log and numbered from 1, a read finds
-- those of the newest 256 that are newer than `after`: it says how many they are, and gives the
-- oldest of them, as many as it has room for, each with its number, its time, its level, its
-- category cut to 31 bytes ("kernel" for an empty one) and its text cut to 191.
pub log_then_read :
    (ms : List Message) (capacity after : ℕ)
    → length ms < 2 ^ 64
    → rad_log_read (log_all empty_log ms) capacity after ≡ (
      length (drop (passed_over (length ms) after) (numbered 1 ms)),
      take capacity (drop (passed_over (length ms) after) (numbered 1 ms)),
    )
unfolding rad_log_read
log_then_read ms capacity after lt =
    let M = λ (n : ℕ). get_or ms (n - 1) no_message in
    let (kept, next) = log_all-IsKept M ms empty_log (empty_log-IsKept M) (omega arith) (λ i n lt e.
      let same : n - 1 ≡ i = omega (arith, e) in ap (λ k. get_or ms k no_message) same) in
    let total : (log_all empty_log ms).next ≡ length ms = next ∙ omega arith in
    ap (λ (es : List LogEntry). (length es, take capacity es))
      (collected M (log_all empty_log ms) ms after kept total
        (λ i lt. let same : 1 + i - 1 ≡ i = omega arith in ap (λ k. get_or ms k no_message) same))
