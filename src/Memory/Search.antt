-- ===== src/Memory/Search.antt =====
-- The search loop of `kmalloc` is a first fit.
use vireo_kernel.Prelude.{
  ℕ, zero, suc, ◌+◌, ◌-◌, ◌≤◌, ◌<◌, ◌≡◌, ◌≢◌, ◌⊎◌, inl, inr, refl, arith, dec_lt, ℕ_discrete,
}
use vireo_kernel.Memory.{Table, entry, search}

-- The `n` entries from index `s` on are free.
abbrev pub IsFree : Table → ℕ → ℕ → Type 0
IsFree t s n = (j : ℕ) → s ≤ j → j < s + n → (entry t j).loc ≡ 0

-- No run of `n` free entries starts below index `b`.
abbrev pub NoFreeBelow : Table → ℕ → ℕ → Type 0
NoFreeBelow t n b = (s : ℕ) → s < b → ¬ (IsFree t s n)

-- Index `s` is the first, or the entry before it is taken.
abbrev pub StartsAfterTaken : Table → ℕ → Type 0
StartsAfterTaken t s = (s ≡ 0) ⊎ ((entry t (s - 1)).loc ≢ 0)

-- What the loop knows at `loc`: the `available` entries before `loc` are a maximal free run, and
-- no earlier run is long enough.
pub record Scanned (blocks : ℕ) (t : Table) (loc available : ℕ) : Type 0 where
  pub short : available < blocks
  pub behind : available ≤ loc
  pub free : IsFree t (loc - available) available
  pub starts : StartsAfterTaken t (loc - available)
  pub none_earlier : NoFreeBelow t blocks (loc - available)

-- The loop left by `break`, with the first run of `blocks` free entries ending at `loc`.
pub record Fits (blocks : ℕ) (t : Table) (loc available : ℕ) : Type 0 where
  pub full : available ≡ blocks
  pub below : loc < 128
  pub enough : blocks ≤ loc + 1
  pub free : IsFree t (loc + 1 - blocks) blocks
  pub starts : StartsAfterTaken t (loc + 1 - blocks)
  pub none_earlier : NoFreeBelow t blocks (loc + 1 - blocks)

-- The loop ran to the end of the table.
pub record Exhausted (blocks : ℕ) (t : Table) (loc available : ℕ) : Type 0 where
  pub ended : loc ≡ 128
  pub short : available < blocks
  pub none_fits : NoFreeBelow t blocks (129 - blocks)

Scanned-taken :
    (blocks : ℕ) (t : Table) (loc available : ℕ)
    → (entry t loc).loc ≢ 0
    → Scanned blocks t loc available
    → Scanned blocks t (loc + 1) 0
Scanned-taken blocks t loc available h k = record {
  short = omega arith;
  behind = omega arith;
  free = λ j p q. absurd (omega arith);
  starts = inr (λ e. h (ground arith));
  none_earlier = λ s p f. elim (dec_lt s (loc - available)) [
    | yes q ↦ k.none_earlier s q f
    | no q ↦ h (f loc (omega arith) (omega arith))
  ];
}

Scanned-free :
    (blocks : ℕ) (t : Table) (loc available : ℕ)
    → (entry t loc).loc ≡ 0
    → available + 1 < blocks
    → Scanned blocks t loc available
    → Scanned blocks t (loc + 1) (available + 1)
Scanned-free blocks t loc available h short k =
    let e : loc + 1 - (available + 1) ≡ loc - available = omega (arith, k.behind) in
    record {
      short = short;
      behind = omega (arith, k.behind);
      free = λ j p q. elim (dec_lt j loc) [
        | yes r ↦ k.free j (omega arith) (omega (arith, k.behind))
        | no r ↦ let e : j ≡ loc = omega (arith, k.behind) in rw (e, h)
      ];
      starts = rw e k.starts;
      none_earlier = rw e k.none_earlier;
    }

Scanned-hit :
    (blocks : ℕ) (t : Table) (loc available : ℕ)
    → (entry t loc).loc ≡ 0
    → available + 1 ≡ blocks
    → loc < 128
    → Scanned blocks t loc available
    → Fits blocks t loc (available + 1)
Scanned-hit blocks t loc available h hit below k =
    let e : loc + 1 - blocks ≡ loc - available = omega (arith, k.behind) in
    record {
      full = hit;
      below = below;
      enough = omega (arith, k.behind);
      free = λ j p q. elim (dec_lt j loc) [
        | yes r ↦ k.free j (omega arith) (omega (arith, k.behind))
        | no r ↦ let e : j ≡ loc = omega (arith, k.behind) in rw (e, h)
      ];
      starts = rw e k.starts;
      none_earlier = rw e k.none_earlier;
    }

abbrev pub Ends : ℕ → Table → ℕ × ℕ → Type 0
Ends blocks t r = Fits blocks t r.0 r.1 ⊎ Exhausted blocks t r.0 r.1

module _ (blocks : ℕ) (t : Table) (left loc available : ℕ) where
  search-hit :
      (entry t loc).loc ≡ 0
      → available + 1 ≡ blocks
      → blocks < 256
      → search blocks t (suc left) loc available ≡ (loc, available + 1)
  unfolding search
  search-hit h hit small = ground arith

  search-more :
      (entry t loc).loc ≡ 0
      → available + 1 < blocks
      → blocks < 256
      → loc < 128
      → search blocks t (suc left) loc available ≡ search blocks t left (loc + 1) (available + 1)
  unfolding search
  search-more h short small below = ground arith

  search-taken :
      (entry t loc).loc ≢ 0
      → 0 < blocks
      → loc < 128
      → search blocks t (suc left) loc available ≡ search blocks t left (loc + 1) 0
  unfolding search
  search-taken h pos below = ground arith

-- With `left` rounds to go the loop ends in one of the two ways.
search-Ends :
    (blocks : ℕ) (t : Table) (left loc available : ℕ)
    → blocks < 256
    → loc + left ≡ 128
    → Scanned blocks t loc available
    → Ends blocks t (search blocks t left loc available)
unfolding search
search-Ends blocks t zero loc available small e k = inr (record {
  ended = omega arith;
  short = k.short;
  none_fits = λ s p. k.none_earlier s (omega (arith, k.short));
})
search-Ends blocks t (suc left) loc available small e k = elim (ℕ_discrete (entry t loc).loc 0) [
  | yes h ↦ elim (ℕ_discrete (available + 1) blocks) [
    | yes hit ↦
        rw (search-hit blocks t left loc available h hit small)
          (inl (Scanned-hit blocks t loc available h hit (omega arith) k))
    | no more ↦
        let short : available + 1 < blocks = omega (arith, k.short) in
        rw (search-more blocks t left loc available h short small (omega arith)) (
          search-Ends blocks t left (loc + 1) (available + 1) small (omega arith)
            (Scanned-free blocks t loc available h short k))
  ]
  | no h ↦ rw (search-taken blocks t left loc available h (omega (arith, k.short)) (omega arith)) (
      search-Ends blocks t left (loc + 1) 0 small (omega arith)
        (Scanned-taken blocks t loc available h k))
]

-- The search of `kmalloc` finds the first run of `blocks` free entries, or there is none.
pub search_lem :
    (blocks : ℕ) (t : Table) → 0 < blocks → blocks < 256 → Ends blocks t (search blocks t 128 0 0)
search_lem blocks t pos small = search-Ends blocks t 128 0 0 small refl (record {
  short = pos;
  behind = omega arith;
  free = λ j p q. absurd (omega arith);
  starts = inl refl;
  none_earlier = λ s p. absurd (omega arith);
})
