-- ===== src/Files/Mounts.antt =====
-- Mount points of RADKernel/core/RADKernel_runtime.cpp: rad_vfs_mount_sd, rad_vfs_mount_provider and
-- rad_vfs_unmount.
use radpx_os.Base.{
  ℕ, Bool, true, false, not, ◌&&◌, Option, none, some, map, if◌then◌else◌, set, get_or, find_index,
  CString, copy_string, text_eq, Status, ok, not_found, no_memory, not_supported, already_exists,
}
use radpx_os.Kernel.{Kernel}
use radpx_os.Files.{
  Vfs, Provider, Mount, mount_point_size, zero_provider, zero_mount, normalized, ensure_directory,
}

abbrev pub is_free_mount : Mount → Bool
is_free_mount m = not m.used

abbrev pub is_mount_at : CString → Mount → Bool
is_mount_at name m = m.used && text_eq m.mount_point name

abbrev pub is_free_provider : Provider → Bool
is_free_provider p = not p.used

abbrev pub is_provider_at : CString → Provider → Bool
is_provider_at name p = p.used && text_eq p.mount_point name

-- The answer of `rad_hal_mount_sd`, none where there is no such function.
abbrev pub board_refuses : Option Status → Option Status
board_refuses none = none
board_refuses (some ok) = none
board_refuses (some not_supported) = none
board_refuses (some status) = some status

unfoldable pub rad_vfs_mount_sd : Kernel → Vfs → Option Status → CString → Status × Vfs
unfolding ensure_directory
rad_vfs_mount_sd k v board mount_point = elim (board_refuses board) [
  | some status ↦ (status, v)
  | none ↦ elim (find_index is_free_mount v.mounts) [
    | none ↦ (no_memory, v)
    | some i ↦
        let old = get_or v.mounts i zero_mount in
        let mounted = record v {
          mounts =
              set v.mounts i (record old {
                mount_point = copy_string mount_point_size mount_point;
                used = true;
              });
        } in
        (ok, (ensure_directory k mounted (normalized mounted mount_point)).1)
  ]
]

-- The record of mounts for a provider in slot `i`: one at its mount point, or else the first free one.
unfoldable pub note_mount : Vfs → CString → ℕ → Vfs
note_mount v name i = elim (find_index (is_mount_at name) v.mounts) [
  | some m ↦
      let old = get_or v.mounts m zero_mount in
      record v { mounts = set v.mounts m (record old { has_provider = true; provider_index = i }) }
  | none ↦ elim (find_index is_free_mount v.mounts) [
    | none ↦ v
    | some m ↦ record v {
      mounts = set v.mounts m (record {
        mount_point = copy_string mount_point_size name;
        provider_index = i;
        has_provider = true;
        used = true;
      });
    }
  ]
]

-- `ops` has the functions that every provider must have.
unfoldable pub rad_vfs_mount_provider : Kernel → Vfs → CString → ℕ → Status × Vfs
unfolding ensure_directory note_mount
rad_vfs_mount_provider k v mount_point ops =
    let name = normalized v mount_point in
    elim (find_index (is_provider_at name) v.providers) [
      | some i ↦ (already_exists, v)
      | none ↦ elim (find_index is_free_provider v.providers) [
        | none ↦ (no_memory, v)
        | some i ↦
            let added = record v {
              providers = set v.providers i (record {
                mount_point = copy_string mount_point_size name;
                ops = ops;
                used = true;
              });
            } in
            (ok, note_mount (ensure_directory k added name).1 name i)
      ]
    ]

abbrev pub cleared : CString → Provider → Provider
cleared name p = if is_provider_at name p then zero_provider else p

unfoldable pub rad_vfs_unmount : Vfs → CString → Status × Vfs
rad_vfs_unmount v mount_point =
    let name = normalized v mount_point in
    let without = record v { providers = map (cleared name) v.providers } in
    elim (find_index (is_mount_at name) v.mounts) [
      | some m ↦
          let old = get_or v.mounts m zero_mount in
          (ok, record without { mounts = set v.mounts m (record old { used = false }) })
      | none ↦ (
        elim (find_index (is_provider_at name) v.providers) [ none ↦ not_found | some i ↦ ok ],
        without,
      )
    ]
