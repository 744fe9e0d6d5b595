-- ===== src/Shm/Pages.antt =====
-- What becomes of an open shared memory object of RADKernel/core/RADKernel_runtime.cpp.
use radpx_os.Base.{
  ℕ, ◌<◌, ◌≡◌, refl, ap, ◌∙◌, false, Option, none, some, arith, ◌==◌, if_elim, length, set,
  length-set, get_or, get_or-set_self, CString, Status, ok, not_found, value, fail,
}
use mathlib.Core.Path.{subst}
use radpx_os.Base.Int.{ℤ}
use radpx_os.Kernel.{Kernel, ShmRecord, current_process_pid}
use radpx_os.Descriptors.{lookup_fd_record}
use radpx_os.Shm.{
  zero_shm, shm_at, put_shm, find_shm_by_name, shm_of_slot, shm_of_fd, rad_shm_unlink,
  rad_shm_get_info, is_bad_page, rad_shm_set_page, rad_shm_get_page, shm_max_pages,
}

shm_of_fd-put :
    (k : Kernel) (i : ℕ) (s : ShmRecord) (fd : ℤ) → shm_of_fd (put_shm k i s) fd ≡ shm_of_fd k fd
unfolding shm_of_fd lookup_fd_record current_process_pid
shm_of_fd-put k i s fd = stays (lookup_fd_record k fd)
  where
    stays : (slot : Option ℕ) → shm_of_slot (put_shm k i s) slot ≡ shm_of_slot k slot
    stays none = refl
    stays (some slot) = rw (length-set k.shm_objects i s) refl

shm_of_fd-lt : (k : Kernel) (fd : ℤ) (i : ℕ) → shm_of_fd k fd ≡ some i → i < length k.shm_objects
unfolding shm_of_fd
shm_of_fd-lt k fd i = inside (lookup_fd_record k fd)
  where
    inside : (slot : Option ℕ) → shm_of_slot k slot ≡ some i → i < length k.shm_objects
    inside none h = cc
    inside (some slot) h = ground arith

abbrev with_page : ShmRecord → ℕ → ℕ → ShmRecord
with_page s page token = record s { pages = set s.pages page token }

-- What a call of `rad_shm_set_page` on object `i` may come to.
abbrev SetFits : Kernel → ℕ → ℕ → ℕ → Status × Kernel → Type 0
SetFits k i page token (ok, k') =
    (is_bad_page (shm_at k i) page ≡ false) × (k' ≡ put_shm k i (with_page (shm_at k i) page token))
SetFits k i page token (_, k') = k' ≡ k

set_page-SetFits :
    (k : Kernel) (fd : ℤ) (i page token : ℕ)
    → shm_of_fd k fd ≡ some i
    → SetFits k i page token (rad_shm_set_page k fd page token)
unfolding rad_shm_set_page
set_page-SetFits k fd i page token found =
    rw (rad_shm_set_page, found)
      (if_elim (SetFits k i page token) (is_bad_page (shm_at k i) page) (λ h. refl)
        (λ h. (h, refl)))

get_page_at :
    (k : Kernel) (fd : ℤ) (i page token : ℕ) (s : ShmRecord)
    → shm_of_fd k fd ≡ some i
    → shm_at k i ≡ s
    → is_bad_page s page ≡ false
    → get_or s.pages page 0 ≡ token
    → 0 < token
    → rad_shm_get_page k fd page ≡ value token
unfolding rad_shm_get_page
get_page_at k fd i page token s found here fine held some_token =
    let test : (token == 0) ≡ false = ground (arith, some_token) in
    rw (rad_shm_get_page, found, here, fine, held, test) refl

-- A page token other than 0 that is set at one descriptor of an object is what every descriptor of
-- the object reads there.
pub set_page_then_get :
    (k k' : Kernel) (fd other : ℤ) (i page token : ℕ)
    → shm_of_fd k fd ≡ some i
    → shm_of_fd k other ≡ some i
    → length (shm_at k i).pages ≡ shm_max_pages
    → 0 < token
    → rad_shm_set_page k fd page token ≡ (ok, k')
    → rad_shm_get_page k' other page ≡ value token
set_page_then_get k k' fd other i page token mine theirs whole some_token done =
    let (fine, writes) =
      subst (SetFits k i page token) done (set_page-SetFits k fd i page token mine) in
    let s = with_page (shm_at k i) page token in
    rw writes (
      get_page_at (put_shm k i s) other i page token s (shm_of_fd-put k i s other ∙ theirs)
        (get_or-set_self k.shm_objects i s zero_shm (shm_of_fd-lt k other i theirs)) fine
        (get_or-set_self (shm_at k i).pages page token 0 (ground (arith, fine, whole))) some_token)

unlink_at :
    (k : Kernel) (name : CString) (i : ℕ)
    → find_shm_by_name k name ≡ some i
    → rad_shm_unlink k name ≡ (ok, put_shm k i zero_shm)
unfolding rad_shm_unlink
unlink_at k name i named = rw (rad_shm_unlink, named) refl

info_at :
    (k : Kernel) (fd : ℤ) (i : ℕ)
    → shm_of_fd k fd ≡ some i
    → (shm_at k i).used ≡ false
    → rad_shm_get_info k fd ≡ fail not_found
unfolding rad_shm_get_info
info_at k fd i found unused = rw (rad_shm_get_info, found, unused) refl

-- Unlinking the name of an object clears the object at once: a descriptor that is open on it is
-- told that there is none.
pub unlink_breaks_open :
    (k : Kernel) (fd : ℤ) (name : CString) (i : ℕ)
    → shm_of_fd k fd ≡ some i
    → find_shm_by_name k name ≡ some i
    → ((rad_shm_unlink k name).0 ≡ ok)
      × (rad_shm_get_info (rad_shm_unlink k name).1 fd ≡ fail not_found)
unlink_breaks_open k fd name i open_at named =
    let gone = unlink_at k name i named in
    (
      ap (λ (x : Status × Kernel). x.0) gone,
      ap (λ (x : Status × Kernel). rad_shm_get_info x.1 fd) gone
          ∙ info_at (put_shm k i zero_shm) fd i (shm_of_fd-put k i zero_shm fd ∙ open_at) (
              ap (λ (s : ShmRecord). s.used)
                (get_or-set_self k.shm_objects i zero_shm zero_shm (shm_of_fd-lt k fd i open_at))),
    )
