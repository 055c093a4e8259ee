-- ===== src/Paging/Create/Tables.antt =====
-- What `paging_create_tables` writes into the page directory and the tables.
use vireo_kernel.Prelude.{
  ℕ, zero, suc, ◌+◌, ◌-◌, ◌*◌, ◌/◌, ◌%◌, ◌^◌, ◌≤◌, ◌<◌, ◌≡◌, ◌≢◌, ◌⊎◌, inl, inr, refl, arith, ap,
  ◌∙◌, bit_or, u32, ℕ_discrete,
}
use mathlib.Core.Path.{subst}
use vireo_kernel.Prelude.Bits.{bit_or-split, bit_or-zero, bit_or-fields}
use vireo_kernel.Paging.{Words, poke}
use vireo_kernel.Paging.Create.{tab, fill_tab, paging_prepare_table, create_loop}
use vireo_kernel.Paging.Entry.{poke_self, poke_ne}

-- `| 3` on a page address, and on an entry of the previous table.
or_three : (q r : ℕ) → (r ≡ 0) ⊎ (r ≡ 3) → bit_or (q * 4096 + r) 3 ≡ q * 4096 + 3
or_three q r (inl e) =
    omega (arith, ap (λ (x : ℕ). bit_or x 3) (plus e), bit_or-fields 12 q 3 (omega arith))
  where
    plus : r ≡ 0 → q * 4096 + r ≡ q * 2 ^ 12
    plus e = omega arith
or_three q r (inr e) = omega (
  arith,
  ap (λ (x : ℕ). bit_or x 3) (plus e),
  bit_or-split 2 (q * 1024) 0 3 3 (omega arith) (omega arith),
  bit_or-zero (q * 1024),
)
  where
    plus : r ≡ 3 → q * 4096 + r ≡ q * 1024 * 2 ^ 2 + 3
    plus e = omega arith

module _ (table previous_end : ℕ) where
  fill_tab_out :
      (mem : Words) (left i a : ℕ)
      → (a < table + 4 * i) ⊎ (table + 4 * (i + left) ≤ a)
      → fill_tab mem table previous_end left i a ≡ mem a
  unfolding fill_tab
  fill_tab_out mem zero i a h = refl
  fill_tab_out mem (suc left) i a h =
      fill_tab_out (poke mem (table + 4 * i) (bit_or (u32 (previous_end + i * 0x1000)) 3)) left
        (i + 1) a (omega arith)
      ∙ poke_ne mem (table + 4 * i) (bit_or (u32 (previous_end + i * 0x1000)) 3) a (omega arith)

  fill_tab_in :
      (mem : Words) (left i j : ℕ)
      → i ≤ j
      → j < i + left
      → fill_tab mem table previous_end left i (table + 4 * j)
        ≡ bit_or (u32 (previous_end + j * 0x1000)) 3
  unfolding fill_tab
  fill_tab_in mem zero i j p q = absurd (omega arith)
  fill_tab_in mem (suc left) i j p q = elim (ℕ_discrete i j) [
    | yes e ↦
        fill_tab_out (poke mem (table + 4 * i) (bit_or (u32 (previous_end + i * 0x1000)) 3)) left
          (i + 1) (table + 4 * j) (inl (omega arith))
        ∙ rw (← e) (poke_self mem (table + 4 * i) (bit_or (u32 (previous_end + i * 0x1000)) 3))
    | no ne ↦
        fill_tab_in (poke mem (table + 4 * i) (bit_or (u32 (previous_end + i * 0x1000)) 3)) left
          (i + 1) j (omega arith) (omega arith)
  ]

-- The entries of table `k` when it starts where the previous one left off: frame `1023 * k + j`.
abbrev pub frame_entry : ℕ → ℕ → ℕ
frame_entry k j = (1023 * k + j) * 4096 + 3

-- `previous_end` before table `k`: nothing before the first, else the last entry of table `k - 1`.
abbrev pub EndBefore : ℕ → ℕ → Type 0
EndBefore k previous_end = (r : ℕ) × ((r ≡ 0) ⊎ (r ≡ 3)) × (previous_end ≡ 1023 * k * 4096 + r)

-- Table `k` at address `table` is filled.
abbrev pub IsTable : Words → ℕ → ℕ → Type 0
IsTable mem k table = (j : ℕ) → j < 1024 → mem (table + 4 * j) ≡ frame_entry k j

prepare-IsTable :
    (mem : Words) (table previous_end k : ℕ)
    → k < 1024
    → EndBefore k previous_end
    → IsTable (paging_prepare_table mem table tab previous_end).0 k table
unfolding paging_prepare_table
prepare-IsTable mem table previous_end k small (r, low, e) j h =
    fill_tab_in table previous_end mem 1024 0 j (omega arith) (omega arith)
    ∙ (let e' : u32 (previous_end + j * 0x1000) ≡ (1023 * k + j) * 4096 + r = omega arith in
        rw e' (or_three (1023 * k + j) r low))

prepare-EndBefore :
    (mem : Words) (table previous_end k : ℕ)
    → k < 1024
    → EndBefore k previous_end
    → EndBefore (k + 1) (paging_prepare_table mem table tab previous_end).1
unfolding paging_prepare_table
prepare-EndBefore mem table previous_end k small b =
    (3, inr refl, prepare-IsTable mem table previous_end k small b 1023 (omega arith) ∙ omega arith)

-- What the loop leaves behind when it runs over the tables `i` to `i + left - 1`.
pub record Created (mem mem' : Words) (page_dir left i : ℕ) : Type 0 where
  pub tables : (k : ℕ) → i ≤ k + 1 → k + 1 < i + left → IsTable mem' k (page_dir + 4096 * (k + 1))
  pub entries :
      (k : ℕ)
      → i ≤ k + 1
      → k + 1 < i + left
      → mem' (page_dir + 4 * k) ≡ page_dir + 4096 * (k + 1) + 3
  pub others :
      (a : ℕ)
      → (a < page_dir + 4 * (i - 1)) ⊎ ((page_dir + 4096 ≤ a) × (a < page_dir + 4096 * i))
      → mem' a ≡ mem a

prepare_out :
    (mem : Words) (table previous_end a : ℕ)
    → (a < table) ⊎ (table + 4096 ≤ a)
    → (paging_prepare_table mem table tab previous_end).0 a ≡ mem a
unfolding paging_prepare_table
prepare_out mem table previous_end a h = fill_tab_out table previous_end mem 1024 0 a (omega arith)

-- One round: the directory word and the table of number `i`, then the rounds after it.
create_round :
    (mem mem₁ mem₂ mem' : Words) (page_dir left i v : ℕ)
    → 0 < i
    → i + left ≤ 1024
    → v ≡ page_dir + 4096 * i + 3
    → mem₁ ≡ poke mem (page_dir + 4 * (i - 1)) v
    → ((a : ℕ) → (a < page_dir + 4096 * i) ⊎ (page_dir + 4096 * i + 4096 ≤ a) → mem₂ a ≡ mem₁ a)
    → IsTable mem₂ (i - 1) (page_dir + 4096 * i)
    → Created mem₂ mem' page_dir left (i + 1)
    → Created mem mem' page_dir (suc left) i
create_round mem mem₁ mem₂ mem' page_dir left i v pos fits ev e₁ out filled later = record {
  tables = λ k p q j h. elim (ℕ_discrete (k + 1) i) [
    | no ne ↦ later.tables k (omega arith) (omega arith) j h
    | yes e ↦
        let ek : k ≡ i - 1 = omega arith in
        later.others (page_dir + 4096 * (k + 1) + 4 * j) (inr (omega arith, omega arith))
        ∙ rw (e, ek) (filled j h)
  ];
  entries = λ k p q. elim (ℕ_discrete (k + 1) i) [
    | no ne ↦ later.entries k (omega arith) (omega arith)
    | yes e ↦
        let ek : k ≡ i - 1 = omega arith in
        later.others (page_dir + 4 * k) (inl (omega arith))
        ∙ out (page_dir + 4 * k) (inl (omega arith))
        ∙ rw (e₁, ek) (poke_self mem (page_dir + 4 * (i - 1)) v ∙ omega arith)
  ];
  others = λ a h.
      later.others a (omega arith)
      ∙ out a (omega arith)
      ∙ rw e₁ (poke_ne mem (page_dir + 4 * (i - 1)) v a (omega arith));
}

directory_word :
    (page_dir i : ℕ)
    → page_dir % 4096 ≡ 0
    → bit_or (page_dir + 4096 * i) 3 ≡ page_dir + 4096 * i + 3
directory_word page_dir i aligned = omega (
  arith,
  ap (λ (x : ℕ). bit_or x 3) (frame page_dir i aligned),
  or_three (page_dir / 4096 + i) 0 (inl refl),
)
  where
    frame : (d i : ℕ) → d % 4096 ≡ 0 → d + 4096 * i ≡ (d / 4096 + i) * 4096 + 0
    frame d i h = omega arith

create_loop-suc :
    (mem : Words) (page_dir previous_end left i at : ℕ)
    → u32 (i * 0x1000 + page_dir) ≡ at
    → let mem₁ = poke mem (page_dir + 4 * (i - 1)) (bit_or at 3) in
      let r = paging_prepare_table mem₁ at tab previous_end in
      create_loop mem page_dir previous_end (suc left) i ≡ create_loop r.0 page_dir r.1 left (i + 1)
unfolding create_loop
create_loop-suc mem page_dir previous_end left i at e =
    ap
      (λ (x : ℕ).
        let r =
          paging_prepare_table (poke mem (page_dir + 4 * (i - 1)) (bit_or x 3)) x tab
            previous_end in
        create_loop r.0 page_dir r.1 left (i + 1))
      e

create_loop-Created :
    (mem : Words) (page_dir previous_end left i : ℕ)
    → 0 < i
    → i + left ≤ 1025
    → page_dir % 4096 ≡ 0
    → page_dir + 4096 * 1025 ≤ 2 ^ 32
    → EndBefore (i - 1) previous_end
    → Created mem (create_loop mem page_dir previous_end left i).0 page_dir left i
create_loop-Created mem page_dir previous_end zero i pos fits aligned room b = record {
  tables = λ k p q. absurd (omega arith);
  entries = λ k p q. absurd (omega arith);
  others = λ a h. unfold create_loop in refl;
}
create_loop-Created mem page_dir previous_end (suc left) i pos fits aligned room b =
    let at : ℕ = page_dir + 4096 * i in
    let loc : u32 (i * 0x1000 + page_dir) ≡ page_dir + 4096 * i = omega arith in
    let word : bit_or (page_dir + 4096 * i) 3 ≡ page_dir + 4096 * i + 3 =
      directory_word page_dir i aligned in
    let v = bit_or (page_dir + 4096 * i) 3 in
    let mem₁ = poke mem (page_dir + 4 * (i - 1)) v in
    let r = paging_prepare_table mem₁ at tab previous_end in
    let next : i - 1 + 1 ≡ i + 1 - 1 = omega arith in
    rw (create_loop-suc mem page_dir previous_end left i at loc) (
      create_round mem mem₁ r.0 (create_loop r.0 page_dir r.1 left (i + 1)).0 page_dir left i v pos
        (omega arith) word refl (prepare_out mem₁ at previous_end)
        (prepare-IsTable mem₁ at previous_end (i - 1) (omega arith) b)
        (create_loop-Created r.0 page_dir r.1 left (i + 1) (omega arith) (omega arith) aligned room
          (subst (λ x. EndBefore x r.1) next
            (prepare-EndBefore mem₁ at previous_end (i - 1) (omega arith) b))))

-- After the loop over `n` page tables, `n` at most 1024, from a page aligned directory: the
-- directory entry of table `k` points to the page `k + 1` of the tables, and entry `j` of table
-- `k` holds frame `1023 * k + j`. Both are marked present and writable.
pub create_loop_lem :
    (mem : Words) (page_dir n k j : ℕ)
    → n ≤ 1024
    → page_dir % 4096 ≡ 0
    → page_dir + 4096 * 1025 ≤ 2 ^ 32
    → k < n
    → j < 1024
    → let mem' = (create_loop mem page_dir 0 n 1).0 in
      (mem' (page_dir + 4 * k) ≡ page_dir + 4096 * (k + 1) + 3)
      × (mem' (page_dir + 4096 * (k + 1) + 4 * j) ≡ (1023 * k + j) * 4096 + 3)
create_loop_lem mem page_dir n k j fits aligned room hk hj =
    let c =
      create_loop-Created mem page_dir 0 n 1 (omega arith) (omega arith) aligned room
        (0, inl refl, refl) in
    (c.entries k (omega arith) (omega arith), c.tables k (omega arith) (omega arith) j hj)

-- So no table but the first is an identity mapping: an address in table `k` leads to the frame
-- that is `k` pages too low.
pub create_loop_not_identity :
    (mem : Words) (page_dir n k j : ℕ)
    → n ≤ 1024
    → page_dir % 4096 ≡ 0
    → page_dir + 4096 * 1025 ≤ 2 ^ 32
    → k < n
    → j < 1024
    → 0 < k
    → (create_loop mem page_dir 0 n 1).0 (page_dir + 4096 * (k + 1) + 4 * j)
      ≢ (1024 * k + j) * 4096 + 3
create_loop_not_identity mem page_dir n k j fits aligned room hk hj pos e =
    omega (arith, (create_loop_lem mem page_dir n k j fits aligned room hk hj).1)
