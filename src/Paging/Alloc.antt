-- ===== src/Paging/Alloc.antt =====
-- `valloc` and `vfree` over the shadow map.
use vireo_kernel.Prelude.{
  ℕ, suc, ◌+◌, ◌*◌, ◌/◌, ◌^◌, ◌≤◌, ◌<◌, ◌≡◌, ◌≢◌, ◌⊎◌, inl, inr, refl, arith, sym, ◌∙◌, ap, false,
  ◌||◌, ltb, ◌==◌, List, length, get_or, set, done, stop, load-eq-done, store-eq-done, length-set,
  get_or-set_self, get_or-set_ne, ℕ_discrete, dec_lt, u16, how_many,
}
use vireo_kernel.Paging.{
  ShadowAllocated, PageReq, Paging, write_entry, mark_pages, valloc, vfree, paging_find_free,
}
use vireo_kernel.Paging.FindFree.{no_page, pid_of, IsUnused, paging_find_free-Answer}
use vireo_kernel.Paging.Marks.{npages_of, mark, length-mark, set_pids-eq-mark, mark_in, mark_out}

abbrev pub pages_of : PageReq → ℕ
pages_of req = how_many req.size 4096

-- `n` pages from page `s` on now belong to `pid`, and page `s` has the count; no other page has
-- changed its owner or its count.
pub record Marked (before after : List ShadowAllocated) (s n pid : ℕ) : Type 0 where
  pub same_length : length after ≡ length before
  pub owned : (j : ℕ) → s ≤ j → j < s + n → pid_of after j ≡ pid
  pub counted : npages_of after s ≡ u16 n
  pub others : (j : ℕ) → (j < s) ⊎ (s + n ≤ j) → get_or after j no_page ≡ get_or before j no_page

mark_pages-Marked :
    (sh : List ShadowAllocated) (s n pid : ℕ)
    → 0 < n
    → s + n ≤ length sh
    → (sh' : List ShadowAllocated) × (mark_pages sh s n pid ≡ done sh') × Marked sh sh' s n pid
unfolding mark_pages
mark_pages-Marked sh s n pid pos fits =
    let m = mark sh s n pid in
    let v : ShadowAllocated = record { pid = pid_of m s; npages = u16 n } in
    let long : s < length m = rw length-mark (omega arith) in
    (
      set m s v,
      rw (set_pids-eq-mark sh s n pid fits, load-eq-done m s no_page long, store-eq-done m s v long)
          refl,
      record {
        same_length = length-set m s v ∙ length-mark sh s n pid;
        owned = λ j p q. elim (ℕ_discrete s j) [
          | yes e ↦ rw (← e) (
              ap (λ r. r.pid) (get_or-set_self m s v no_page long)
              ∙ mark_in sh s n pid s fits (omega arith) (omega arith))
          | no ne ↦
              ap (λ r. r.pid) (get_or-set_ne m s j v no_page ne) ∙ mark_in sh s n pid j fits p q
        ];
        counted = ap (λ r. r.npages) (get_or-set_self m s v no_page long);
        others = λ j h. get_or-set_ne m s j v no_page (omega arith) ∙ mark_out sh s n pid j h;
      },
    )

-- The branches of `valloc` after the first assertion.
module _ (p : Paging) (req : PageReq) (dir_there : p.page_dir ≢ 0) where
  valloc_refuses : (pages_of req ≡ 0) ⊎ (p.g_max_pages < pages_of req) → valloc p req ≡ done (0, p)
  unfolding valloc
  valloc_refuses h = ground arith

  valloc_halts :
      pages_of req ≢ 0
      → pages_of req ≤ p.g_max_pages
      → paging_find_free p.shadow_t (pages_of req) ≡ 0
      → valloc p req ≡ stop
  unfolding valloc
  valloc_halts ne le e = ground arith

  valloc_takes :
      (s : ℕ) (sh : List ShadowAllocated)
      → pages_of req ≢ 0
      → pages_of req ≤ p.g_max_pages
      → paging_find_free p.shadow_t (pages_of req) ≡ s * 4096
      → s ≢ 0
      → mark_pages p.shadow_t s (pages_of req) req.pid ≡ done sh
      → valloc p req ≡ done (s * 4096, record (write_entry p s req) { shadow_t = sh })
  unfolding valloc
  valloc_takes s sh ne le e s_ne m =
      let dir_ok : (p.page_dir == 0) ≡ false = ground arith in
      let enough : (ltb p.g_max_pages (pages_of req) || pages_of req == 0) ≡ false = ground arith in
      let not_null : (s * 4096 == 0) ≡ false = ground arith in
      let page : s * 4096 / 2 ^ 12 ≡ s = omega arith in
      rw (dir_ok, enough, e, not_null, page, m) refl

-- The answer of `valloc` for a request: pages that nobody had, none of them page 0, now owned by
-- the process; NULL for an empty request or one of more pages than there are; and in all other
-- cases the kernel stops in `dbg_assert`, though callers expect NULL.
abbrev pub Served : Paging → PageReq → ℕ × Paging → Type 0
Served p req r =
    (s : ℕ) × (r.0 ≡ s * 4096)
    × (s ≢ 0)
    × (pages_of req ≢ 0)
    × (s + pages_of req < length p.shadow_t)
    × IsUnused p.shadow_t s (suc (pages_of req))
    × Marked p.shadow_t r.1.shadow_t s (pages_of req) req.pid

-- The kernel stops when there is no run of one page more than needed, or the first is at page 0.
abbrev pub Starved : Paging → PageReq → Type 0
Starved p req =
    (s : ℕ)
    → s + pages_of req < length p.shadow_t
    → IsUnused p.shadow_t s (suc (pages_of req))
    → IsUnused p.shadow_t 0 (suc (pages_of req))

valloc-Served :
    (p : Paging) (req : PageReq)
    → p.page_dir ≢ 0
    → length p.shadow_t ≤ 2 ^ 20
    → pages_of req ≢ 0
    → pages_of req ≤ p.g_max_pages
    → ((r : ℕ × Paging) × (valloc p req ≡ done r) × Served p req r)
      ⊎ ((valloc p req ≡ stop) × Starved p req)
valloc-Served p req dir_there small ne le =
    elim (paging_find_free-Answer p.shadow_t (pages_of req) ne) [
      | inr (e, none_fits) ↦
          inr (valloc_halts p req dir_there ne le e, λ s q f. absurd (none_fits s q f))
      | inl (s, inside, unused, first, e) ↦
          let e' : paging_find_free p.shadow_t (pages_of req) ≡ s * 4096 = e ∙ omega arith in
          elim (ℕ_discrete s 0) [
            | yes z ↦
                inr
                  (valloc_halts p req dir_there ne le (e' ∙ omega arith), λ s' q f. rw z at unused)
            | no s_ne ↦
                let (sh, m, marked) =
                  mark_pages-Marked p.shadow_t s (pages_of req) req.pid (omega arith)
                    (omega arith) in
                inl (
                  (s * 4096, record (write_entry p s req) { shadow_t = sh }),
                  valloc_takes p req dir_there s sh ne le e' s_ne m,
                  (s, refl, s_ne, ne, inside, unused, marked),
                )
          ]
    ]

Range-cases : (i m j : ℕ) → ((j < i) ⊎ (i + m ≤ j)) ⊎ ((i ≤ j) × (j < i + m))
Range-cases i m j = ground arith

-- Every outcome of `valloc` on a shadow map of at most 2 ^ 20 pages.
pub valloc_lem :
    (p : Paging) (req : PageReq)
    → p.page_dir ≢ 0
    → length p.shadow_t ≤ 2 ^ 20
    → ((r : ℕ × Paging) × (valloc p req ≡ done r) × Served p req r)
      ⊎ ((valloc p req ≡ done (0, p)) × ((pages_of req ≡ 0) ⊎ (p.g_max_pages < pages_of req)))
      ⊎ ((valloc p req ≡ stop) × Starved p req)
valloc_lem p req dir_there small = elim (ℕ_discrete (pages_of req) 0) [
  | yes z ↦ inr (inl (valloc_refuses p req dir_there (inl z), inl z))
  | no ne ↦ elim (dec_lt p.g_max_pages (pages_of req)) [
    | yes big ↦ inr (inl (valloc_refuses p req dir_there (inr big), inr big))
    | no le ↦ elim (valloc-Served p req dir_there small ne (omega arith)) [
      | inl r ↦ inl r
      | inr e ↦ inr (inr e)
    ]
  ]
]

vfree-eq :
    (p : Paging) (s n : ℕ)
    → npages_of p.shadow_t s ≡ n
    → 0 < n
    → s + n ≤ length p.shadow_t
    → (p' : Paging) × (vfree p (s * 4096) ≡ done p') × (p'.shadow_t ≡ mark p.shadow_t s n 0xff)
unfolding vfree
vfree-eq p s n e pos fits =
    let page : s * 4096 / 4096 ≡ s = omega arith in
    rw
      (
        page,
        load-eq-done p.shadow_t s no_page (omega arith),
        e,
        set_pids-eq-mark p.shadow_t s n 0xff fits,
      )
      (_, refl, refl)

-- Clearing the marks of a run that nobody had gives every page its owner back.
unmarked :
    (before after : List ShadowAllocated) (s n pid : ℕ)
    → s + n < length before
    → IsUnused before s (suc n)
    → Marked before after s n pid
    → (j : ℕ) → pid_of (mark after s n 0xff) j ≡ pid_of before j
unmarked before after s n pid inside unused m j = elim (Range-cases s n j) [
  | inl out ↦ ap (λ r. r.pid) (mark_out after s n 0xff j out ∙ m.others j out)
  | inr (p, q) ↦
      mark_in after s n 0xff j (omega (arith, m.same_length)) p q ∙ sym (unused j p (omega arith))
]

given_back :
    (p : Paging) (req : PageReq) {r r' : ℕ × Paging}
    → pages_of req < 2 ^ 16
    → Served p req r'
    → r' ≡ r
    → (p' : Paging) × (vfree r.1 r.0 ≡ done p')
      × ((j : ℕ) → pid_of p'.shadow_t j ≡ pid_of p.shadow_t j)
given_back p req {r} {r'} few (s, a, s_ne, ne, inside, unused, m) same =
    let n = pages_of req in
    let count : npages_of r'.1.shadow_t s ≡ pages_of req = m.counted ∙ omega arith in
    let (p', e, k) =
      vfree-eq r'.1 s (pages_of req) count (omega arith) (omega (arith, m.same_length)) in
    rw (← same, a)
      (p', e, λ j. rw k (unmarked p.shadow_t r'.1.shadow_t s n req.pid inside unused m j))

-- Freeing what `valloc` gave ends without a fault, and every page has its owner from before the
-- request again, if the page count fits the 16 bits of the shadow map.
pub valloc-vfree :
    (p : Paging) (req : PageReq) {r : ℕ × Paging}
    → p.page_dir ≢ 0
    → length p.shadow_t ≤ 2 ^ 20
    → pages_of req < 2 ^ 16
    → valloc p req ≡ done r
    → r.0 ≢ 0
    → (p' : Paging) × (vfree r.1 r.0 ≡ done p')
      × ((j : ℕ) → pid_of p'.shadow_t j ≡ pid_of p.shadow_t j)
valloc-vfree p req {r} dir_there small few e ne = elim (valloc_lem p req dir_there small) [
  | inr (inl (null, why)) ↦
      let same : r ≡ (0, p) = cc in absurd (ne (ap (λ (x : ℕ × Paging). x.0) same))
  | inr (inr (halt, why)) ↦ absurd (cc)
  | inl (r', e', served) ↦ let same : r' ≡ r = cc in given_back p req few served same
]
