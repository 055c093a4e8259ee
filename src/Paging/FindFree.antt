-- ===== src/Paging/FindFree.antt =====
-- `paging_find_free` looks for one page more than it is asked for.
use vireo_kernel.Prelude.{
  ℕ, suc, ◌+◌, ◌-◌, ◌*◌, ◌≤◌, ◌<◌, ◌≡◌, ◌≢◌, ◌⊎◌, inl, inr, refl, arith, sym, ap, ◌∙◌, List, [],
  ◌∷◌, length, get_or, dec_lt, ℕ_discrete, u32,
}
use vireo_kernel.Paging.{ShadowAllocated, find_free_from, paging_find_free}

abbrev pub no_page : ShadowAllocated
no_page = record { pid = 0; npages = 0 }

abbrev pub pid_of : List ShadowAllocated → ℕ → ℕ
pid_of sh i = (get_or sh i no_page).pid

-- The `n` pages from page `s` on are in the map and belong to nobody.
abbrev pub IsUnused : List ShadowAllocated → ℕ → ℕ → Type 0
IsUnused sh s n = (j : ℕ) → s ≤ j → j < s + n → pid_of sh j ≡ 0xff

abbrev pub NoneBelow : List ShadowAllocated → ℕ → ℕ → Type 0
NoneBelow sh n b = (s : ℕ) → s < b → ¬ (IsUnused sh s n)

-- `rest` is the shadow map from entry `i` on.
pub record IsRest (sh rest : List ShadowAllocated) (i : ℕ) : Type 0 where
  pub total : i + length rest ≡ length sh
  pub agrees : (j : ℕ) → pid_of rest j ≡ pid_of sh (i + j)

-- What the loop knows at page `i`.
pub record Counting (npages : ℕ) (sh : List ShadowAllocated) (i index cnt : ℕ) : Type 0 where
  pub short : cnt ≤ npages
  pub behind : cnt ≤ i
  pub start : cnt ≢ 0 → index ≡ i - cnt
  pub unused : IsUnused sh (i - cnt) cnt
  pub none_earlier : NoneBelow sh (suc npages) (i - cnt)

-- The answer is the address of the first run of `npages + 1` unused pages, or NULL.
abbrev pub Answer : ℕ → List ShadowAllocated → ℕ → Type 0
Answer npages sh r =
    ((s : ℕ) × (s + npages < length sh)
      × IsUnused sh s (suc npages)
      × NoneBelow sh (suc npages) s
      × (r ≡ u32 (s * 4096)))
    ⊎ ((r ≡ 0) × ((s : ℕ) → s + npages < length sh → ¬ (IsUnused sh s (suc npages))))

module _ (npages : ℕ) (s : ShadowAllocated) (rest : List ShadowAllocated) (i index cnt : ℕ) where
  find_free-used :
      s.pid ≢ 0xff
      → find_free_from npages (s ∷ rest) i index cnt ≡ find_free_from npages rest (i + 1) index 0
  unfolding find_free_from
  find_free-used h = ground arith

  find_free-hit :
      s.pid ≡ 0xff
      → cnt ≡ npages
      → cnt ≢ 0
      → find_free_from npages (s ∷ rest) i index cnt ≡ u32 (index * 4096)
  unfolding find_free_from
  find_free-hit h hit ne = ground arith

  find_free-more :
      s.pid ≡ 0xff
      → cnt ≢ npages
      → cnt ≢ 0
      → find_free_from npages (s ∷ rest) i index cnt
        ≡ find_free_from npages rest (i + 1) index (cnt + 1)
  unfolding find_free_from
  find_free-more h more ne = ground arith

  find_free-first :
      s.pid ≡ 0xff
      → npages ≢ 0
      → cnt ≡ 0
      → find_free_from npages (s ∷ rest) i index cnt
        ≡ find_free_from npages rest (i + 1) i (cnt + 1)
  unfolding find_free_from
  find_free-first h pos e = ground arith

IsRest-tail :
    {sh rest : List ShadowAllocated} (s : ShadowAllocated) (i : ℕ)
    → IsRest sh (s ∷ rest) i
    → IsRest sh rest (i + 1)
IsRest-tail {sh} s i k = record {
  total = omega (arith, k.total);
  agrees = λ j. k.agrees (suc j) ∙ (let e : i + suc j ≡ i + 1 + j = omega arith in rw e);
}

pid_here :
    {sh rest : List ShadowAllocated} (s : ShadowAllocated) (i : ℕ)
    → IsRest sh (s ∷ rest) i
    → pid_of sh i ≡ s.pid
pid_here {sh} s i k = let e : i ≡ i + 0 = omega arith in rw e (sym (k.agrees 0))

Counting-used :
    {npages : ℕ} {sh : List ShadowAllocated} {i index cnt : ℕ}
    → pid_of sh i ≢ 0xff
    → Counting npages sh i index cnt
    → Counting npages sh (i + 1) index 0
Counting-used {i} {cnt} h k = record {
  short = omega arith;
  behind = omega arith;
  start = λ ne. absurd (ne refl);
  unused = λ j p q. absurd (omega arith);
  none_earlier = λ s p f. elim (dec_lt s (i - cnt)) [
    | yes q ↦ k.none_earlier s q f
    | no q ↦ h (f i (omega arith) (omega (arith, k.short, k.behind)))
  ];
}

Counting-unused :
    {npages : ℕ} {sh : List ShadowAllocated} {i index cnt : ℕ} (index' : ℕ)
    → pid_of sh i ≡ 0xff
    → cnt < npages
    → index' ≡ i - cnt
    → Counting npages sh i index cnt
    → Counting npages sh (i + 1) index' (cnt + 1)
Counting-unused {i} {cnt} index' h short start k =
    let e : i + 1 - (cnt + 1) ≡ i - cnt = omega arith in
    record {
      short = omega arith;
      behind = omega (arith, k.behind);
      start = λ ne. omega arith;
      unused = λ j p q. elim (dec_lt j i) [
        | yes r ↦ k.unused j (omega arith) (omega (arith, k.behind))
        | no r ↦ let e : j ≡ i = omega (arith, k.behind) in rw (e, h)
      ];
      none_earlier = rw e k.none_earlier;
    }

Counting-hit :
    {npages : ℕ} {sh : List ShadowAllocated} {i index cnt : ℕ}
    → pid_of sh i ≡ 0xff
    → cnt ≡ npages
    → cnt ≢ 0
    → i < length sh
    → Counting npages sh i index cnt
    → Answer npages sh (u32 (index * 4096))
Counting-hit {sh} {i} {index} {cnt} h hit ne below k =
    let e : index ≡ i - cnt = k.start ne in
    inl (
      index,
      omega (arith, k.behind),
      λ j p q. elim (dec_lt j i) [
        | yes r ↦ k.unused j (omega arith) (omega (arith, k.behind))
        | no r ↦ let e' : j ≡ i = omega (arith, k.behind) in rw (e', h)
      ],
      rw e k.none_earlier,
      refl,
    )

abbrev Found : ℕ → List ShadowAllocated → List ShadowAllocated → ℕ → ℕ → ℕ → Type 0
Found npages sh rest i index cnt = Answer npages sh (find_free_from npages rest i index cnt)

find_free_from-Answer :
    (npages : ℕ) (sh rest : List ShadowAllocated) (i index cnt : ℕ)
    → npages ≢ 0
    → IsRest sh rest i
    → Counting npages sh i index cnt
    → Found npages sh rest i index cnt
unfolding find_free_from
find_free_from-Answer npages sh [] i index cnt pos r k =
    inr (refl, λ s p. k.none_earlier s (omega (arith, r.total, k.short, k.behind)))
find_free_from-Answer npages sh (s ∷ rest) i index cnt pos r k =
    let here = pid_here s i r in
    let tail = IsRest-tail s i r in
    elim (ℕ_discrete s.pid 0xff) [
      | no h ↦ rw (find_free-used npages s rest i index cnt h) (
          find_free_from-Answer npages sh rest (i + 1) index 0 pos tail
            (Counting-used (λ e. h (sym here ∙ e)) k))
      | yes h ↦ elim (ℕ_discrete cnt 0) [
        | yes z ↦ rw (find_free-first npages s rest i index cnt h pos z) (
            find_free_from-Answer npages sh rest (i + 1) i (cnt + 1) pos tail
              (Counting-unused i (here ∙ h) (omega arith) (omega arith) k))
        | no nz ↦ elim (ℕ_discrete cnt npages) [
          | yes hit ↦
              rw (find_free-hit npages s rest i index cnt h hit nz)
                (Counting-hit (here ∙ h) hit nz (omega (arith, r.total)) k)
          | no more ↦ rw (find_free-more npages s rest i index cnt h more nz) (
              find_free_from-Answer npages sh rest (i + 1) index (cnt + 1) pos tail
                (Counting-unused index (here ∙ h) (omega (arith, k.short)) (k.start nz) k))
        ]
      ]
    ]

-- For a request of one page or more the search answers with the address of the first run of
-- `npages + 1` unused pages, cut to 32 bits; without such a run it answers NULL. So a run of
-- exactly `npages` pages is never given.
pub paging_find_free-Answer :
    (sh : List ShadowAllocated) (npages : ℕ)
    → npages ≢ 0
    → Answer npages sh (paging_find_free sh npages)
unfolding paging_find_free
paging_find_free-Answer sh npages pos =
    find_free_from-Answer npages sh sh 0 0 0 pos
      (record { total = omega arith; agrees = λ j. ap (pid_of sh) (omega arith) })
      (record {
        short = omega arith;
        behind = omega arith;
        start = λ ne. absurd (ne refl);
        unused = λ j p q. absurd (omega arith);
        none_earlier = λ s p. absurd (omega arith);
      })
