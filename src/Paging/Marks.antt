-- ===== src/Paging/Marks.antt =====
-- The loops of `valloc` and `vfree` that write a process id over a range of the shadow map.
use vireo_kernel.Prelude.{
  ℕ, zero, suc, ◌+◌, ◌≤◌, ◌<◌, ◌≡◌, ◌⊎◌, inl, refl, arith, ◌∙◌, ap, List, length, get_or, set, done,
  load-eq-done, store-eq-done, length-set, get_or-set_self, get_or-set_ne, ℕ_discrete,
}
use vireo_kernel.Paging.{ShadowAllocated, set_pids}
use vireo_kernel.Paging.FindFree.{no_page, pid_of}

abbrev pub npages_of : List ShadowAllocated → ℕ → ℕ
npages_of sh i = (get_or sh i no_page).npages

abbrev pub claim : List ShadowAllocated → ℕ → ℕ → List ShadowAllocated
claim sh i pid = set sh i (record { pid = pid; npages = npages_of sh i })

-- The map after the loop.
abbrev pub mark : List ShadowAllocated → ℕ → ℕ → ℕ → List ShadowAllocated
mark sh i zero pid = sh
mark sh i (suc n) pid = mark (claim sh i pid) (i + 1) n pid

pub length-mark : (sh : List ShadowAllocated) (i n pid : ℕ) → length (mark sh i n pid) ≡ length sh
length-mark sh i zero pid = refl
length-mark sh i (suc n) pid =
    length-mark (claim sh i pid) (i + 1) n pid
    ∙ length-set sh i (record { pid = pid; npages = npages_of sh i })

pub set_pids-eq-mark :
    (sh : List ShadowAllocated) (i n pid : ℕ)
    → i + n ≤ length sh
    → set_pids sh i n pid ≡ done (mark sh i n pid)
unfolding set_pids
set_pids-eq-mark sh i zero pid h = refl
set_pids-eq-mark sh i (suc n) pid h =
    rw
      (
        load-eq-done sh i no_page (omega arith),
        store-eq-done sh i (record { pid = pid; npages = npages_of sh i }) (omega arith),
      )
      (set_pids-eq-mark (claim sh i pid) (i + 1) n pid (rw length-set (omega arith)))

pub mark_out :
    (sh : List ShadowAllocated) (i n pid j : ℕ)
    → (j < i) ⊎ (i + n ≤ j)
    → get_or (mark sh i n pid) j no_page ≡ get_or sh j no_page
mark_out sh i zero pid j h = refl
mark_out sh i (suc n) pid j h =
    mark_out (claim sh i pid) (i + 1) n pid j (omega arith)
    ∙ get_or-set_ne sh i j (record { pid = pid; npages = npages_of sh i }) no_page (omega arith)

pub mark_in :
    (sh : List ShadowAllocated) (i n pid j : ℕ)
    → i + n ≤ length sh
    → i ≤ j
    → j < i + n
    → pid_of (mark sh i n pid) j ≡ pid
mark_in sh i zero pid j h p q = absurd (omega arith)
mark_in sh i (suc n) pid j h p q = elim (ℕ_discrete i j) [
  | yes e ↦
      ap (λ r. r.pid) (mark_out (claim sh i pid) (i + 1) n pid j (inl (omega arith)))
      ∙ rw (← e) (
          ap (λ r. r.pid)
            (get_or-set_self sh i (record { pid = pid; npages = npages_of sh i }) no_page
              (omega arith)))
  | no ne ↦
      mark_in (claim sh i pid) (i + 1) n pid j (rw length-set (omega arith)) (omega arith)
        (omega arith)
]

-- The page counts stay.
pub mark_npages :
    (sh : List ShadowAllocated) (i n pid j : ℕ)
    → i + n ≤ length sh
    → npages_of (mark sh i n pid) j ≡ npages_of sh j
mark_npages sh i zero pid j h = refl
mark_npages sh i (suc n) pid j h =
    mark_npages (claim sh i pid) (i + 1) n pid j (rw length-set (omega arith)) ∙ claimed
  where
    claimed : npages_of (claim sh i pid) j ≡ npages_of sh j
    claimed = elim (ℕ_discrete i j) [
      | yes e ↦ rw (← e) (
          ap (λ r. r.npages)
            (get_or-set_self sh i (record { pid = pid; npages = npages_of sh i }) no_page
              (omega arith)))
      | no ne ↦
          ap (λ r. r.npages)
            (get_or-set_ne sh i j (record { pid = pid; npages = npages_of sh i }) no_page ne)
    ]
