-- ===== src/Files/Longest.antt =====
-- Which provider serves a path, in RADKernel/core/RADKernel_runtime.cpp.
use radpx_os.Base.{
  ℕ, zero, suc, ◌+◌, ◌≤◌, ◌<◌, ◌≡◌, refl, sym, ap, ◌∙◌, ◌⊎◌, inl, inr, Bool, true, not, ◌&&◌,
  Option, none, some, List, [], ◌∷◌, arith, ltb, if_elim, length, get_or, CString,
}
use radpx_os.Files.Under.{IsUnder, IsBehind, covers-IsUnder, IsUnder-covers, relative_to-IsBehind}
use radpx_os.Files.{
  Vfs, Provider, zero_provider, covers, best_provider, relative_to, provider_for_path,
}

abbrev provider_at : List Provider → ℕ → Provider
provider_at ps i = get_or ps i zero_provider

abbrev serves : CString → Provider → Bool
serves path p = p.used && covers p.mount_point path

abbrev pub depth : Provider → ℕ
depth p = length p.mount_point

abbrev NoneDeeper : CString → List Provider → ℕ → Type 0
NoneDeeper path ps best =
    (t : ℕ)
    → t < length ps
    → serves path (provider_at ps t) ≡ true
    → depth (provider_at ps t) < best

-- Slot `t` is the deepest that serves the path.
abbrev IsBest : CString → List Provider → ℕ → Type 0
IsBest path ps t =
    (t < length ps)
    × (serves path (get_or ps t zero_provider) ≡ true)
    × ((j : ℕ)
        → j < length ps
        → serves path (get_or ps j zero_provider) ≡ true
        → depth (get_or ps j zero_provider) ≤ depth (get_or ps t zero_provider))

abbrev Best : CString → List Provider → ℕ → ℕ → Option ℕ → Option ℕ → Type 0
Best path ps i best found r =
    ((r ≡ found) × NoneDeeper path ps best)
    ⊎ ((t : ℕ) × (r ≡ some (i + t)) × IsBest path ps t × (best ≤ depth (provider_at ps t)))

each-cons :
    (Q : ℕ → Type 0) (path : CString) (p : Provider) (ps : List Provider)
    → (serves path p ≡ true → Q (depth p))
    → ((t : ℕ)
        → t < length ps
        → serves path (provider_at ps t) ≡ true
        → Q (depth (provider_at ps t)))
    → (t : ℕ) → t < length (p ∷ ps)
    → serves path (provider_at (p ∷ ps) t) ≡ true
    → Q (depth (provider_at (p ∷ ps) t))
each-cons Q path p ps here there zero below serving = here serving
each-cons Q path p ps here there (suc t) below serving = there t (omega arith) serving

next_slot : (i t : ℕ) → i + 1 + t ≡ i + suc t
next_slot i t = omega arith

best_provider-Best :
    (path : CString) (ps : List Provider) (i best : ℕ) (found : Option ℕ)
    → Best path ps i best found (best_provider path ps i best found)
unfolding best_provider
best_provider-Best path [] i best found = inl (refl, λ t below serving. absurd (omega arith))
best_provider-Best path (p ∷ ps) i best found =
    let kept = best_provider-Best path ps (i + 1) best found in
    let taken = best_provider-Best path ps (i + 1) (depth p) (some i) in
    if_elim (Best path (p ∷ ps) i best found)
      (p.used && not (ltb (depth p) best) && covers p.mount_point path)
      (λ test.
        let serving : serves path p ≡ true = ground (arith, test) in
        let larger : best ≤ depth p = ground (arith, test) in
        elim taken [
          | inl (e, less) ↦
              let first : i + 0 ≡ i = omega arith in
              inr (
                0,
                e ∙ ap some (sym first),
                (
                  omega arith,
                  serving,
                  each-cons (λ n. n ≤ depth p) path p ps (λ h. omega arith)
                      (λ t below h. omega (arith, less t below h)),
                ),
                larger,
              )
          | inr (t, e, (below, at_t, most), more) ↦ inr (
            suc t,
            e ∙ ap some (next_slot i t),
            (
              omega (arith, below),
              at_t,
              each-cons (λ n. n ≤ depth (provider_at ps t)) path p ps (λ h. more) most,
            ),
            omega (arith, larger, more),
          )
        ])
      (λ test.
        let shallow : serves path p ≡ true → depth p < best = λ h. ground (arith, test, h) in
        elim kept [
          | inl (e, less) ↦ inl (e, each-cons (λ n. n < best) path p ps shallow less)
          | inr (t, e, (below, at_t, most), more) ↦ inr (
            suc t,
            e ∙ ap some (next_slot i t),
            (
              omega (arith, below),
              at_t,
              each-cons (λ n. n ≤ depth (provider_at ps t)) path p ps
                  (λ h. omega (arith, shallow h, more)) most,
            ),
            more,
          )
        ])

-- A provider in use whose mount point is the path or above it.
abbrev pub Serves : CString → Provider → Type 0
Serves path p = (p.used ≡ true) × IsUnder p.mount_point path

-- Slot `t` serves the path, and none that does has a longer mount point.
abbrev pub IsDeepest : CString → List Provider → ℕ → Type 0
IsDeepest path ps t =
    (t < length ps)
    × Serves path (get_or ps t zero_provider)
    × ((j : ℕ)
        → j < length ps
        → Serves path (get_or ps j zero_provider)
        → length (get_or ps j zero_provider).mount_point
          ≤ length (get_or ps t zero_provider).mount_point)

serves-Serves : (path : CString) (p : Provider) → serves path p ≡ true → Serves path p
serves-Serves path p e =
    let used : p.used ≡ true = ground arith in
    let covered : covers p.mount_point path ≡ true = ground arith in
    (used, covers-IsUnder p.mount_point path covered)

Serves-serves : (path : CString) (p : Provider) → Serves path p → serves path p ≡ true
Serves-serves path p (used, under) =
    let covered = IsUnder-covers p.mount_point path under in rw (used, covered) refl

-- A path is served by a provider in use with the longest mount point among those that are the path
-- or above it, and is asked for by what is behind that; where there is none, none serves it.
pub provider_for_path-IsDeepest :
    (v : Vfs) (path : CString)
    → ((provider_for_path v path ≡ none)
        × ((t : ℕ) → t < length v.providers → ¬ Serves path (get_or v.providers t zero_provider)))
      ⊎ ((t : ℕ) × (rest : CString) × IsDeepest path v.providers t
          × IsBehind (get_or v.providers t zero_provider).mount_point path rest
          × (provider_for_path v path ≡ some (t, (get_or v.providers t zero_provider).ops, rest)))
unfolding provider_for_path
provider_for_path-IsDeepest v path = elim (best_provider-Best path v.providers 0 0 none) [
  | inl (e, less) ↦ inl (
    rw (provider_for_path, e) refl,
    λ t below serving.
        absurd
          (omega (arith, less t below (Serves-serves path (provider_at v.providers t) serving))),
  )
  | inr (t, e, (below, serving, most), more) ↦
      let first : 0 + t ≡ t = omega arith in
      let p = provider_at v.providers t in
      let serves_it = serves-Serves path p serving in
      inr (
        t,
        relative_to p.mount_point path,
        (
          below,
          serves_it,
          λ j inside other. most j inside (Serves-serves path (provider_at v.providers j) other),
        ),
        relative_to-IsBehind p.mount_point path (serves_it.1),
        rw (provider_for_path, e, first) refl,
      )
]
