-- ===== src/Log.antt =====
-- The kernel log of RADKernel/core/RADKernel_runtime.cpp: rad_log_write and rad_log_read. The time of
-- an entry is what the clock says, an argument here; a level is its number.
pub mod Window
use radpx_os.Base.{
  ℕ, zero, suc, ◌+◌, ◌-◌, ◌%◌, ◌^◌, Bool, true, false, ◌&&◌, Option, none, some, List, [], ◌∷◌, ltb,
  ◌==◌, if◌then◌else◌, length, set, get_or, take, CString, codes, copy_string, Status, ok,
  invalid_argument,
}

-- RAD_KERNEL_MAX_LOG_ENTRIES, RAD_LOG_CATEGORY_MAX and RAD_LOG_MESSAGE_MAX.
abbrev pub max_log_entries : ℕ
max_log_entries = 256

abbrev pub log_category_size : ℕ
log_category_size = 32

abbrev pub log_message_size : ℕ
log_message_size = 192

pub record LogEntry : Type 0 where
  pub sequence : ℕ
  pub time_millis : ℕ
  pub level : ℕ
  pub category : CString
  pub message : CString

pub record LogRecord : Type 0 where
  pub entry : LogEntry
  pub used : Bool

abbrev pub zero_log : LogRecord
zero_log = record {
  entry = record { sequence = 0; time_millis = 0; level = 0; category = []; message = [] };
  used = false;
}

pub record Logs : Type 0 where
  pub records : List LogRecord
  pub next : ℕ

abbrev pub log_record : ℕ → ℕ → ℕ → CString → CString → LogRecord
log_record sequence time level category message = record {
  entry = record {
    sequence = sequence;
    time_millis = time;
    level = level;
    category =
        copy_string log_category_size (if length category == 0 then codes "kernel" else category);
    message = copy_string log_message_size message;
  };
  used = true;
}

-- `none` is a null message; a null category is an empty one here, which is replaced too.
unfoldable pub rad_log_write : Logs → ℕ → ℕ → CString → Option CString → Status × Logs
rad_log_write s time level category none = (invalid_argument, s)
rad_log_write s time level category (some message) =
    let sequence = (s.next + 1) % 2 ^ 64 in
    (
      ok,
      record {
        records =
            set s.records (sequence % max_log_entries)
              (log_record sequence time level category message);
        next = sequence;
      },
    )

abbrev pub first_kept : ℕ → ℕ
first_kept next = if ltb max_log_entries next then next - max_log_entries + 1 else 1

abbrev pub is_wanted : LogRecord → ℕ → ℕ → Bool
is_wanted r sequence after = r.used && (r.entry.sequence == sequence) && ltb after sequence

-- The entries of the sequence numbers from `sequence` on, `rounds` of them.
unfoldable pub collect : List LogRecord → ℕ → ℕ → ℕ → List LogEntry
collect records after sequence zero = []
collect records after sequence (suc rounds) =
    let rest = collect records after (suc sequence) rounds in
    let r = get_or records (sequence % max_log_entries) zero_log in
    if is_wanted r sequence after then r.entry ∷ rest else rest

-- The count, and the entries that the caller's buffer has room for.
unfoldable pub rad_log_read : Logs → ℕ → ℕ → ℕ × List LogEntry
unfolding collect
rad_log_read s capacity after =
    let found = collect s.records after (first_kept s.next) (s.next + 1 - first_kept s.next) in
    (length found, take capacity found)
