-- ===== src/Drv/Machine/Medium.antt =====
-- A disk that keeps what is written: the law of the disk layer that the drivers rely on, and the
-- disk that is a function from sector numbers to sectors.
use vireo_kernel.Prelude.{
  ℕ, zero, suc, ◌≡◌, ◌≢◌, refl, arith, ap, true, false, if◌then◌else◌, ◌==◌, done, List, [], ◌∷◌,
  length, none, some, replicate, length-replicate,
}
use vireo_kernel.Drv.Machine.{Machine}

pub record IsMedium {W : Type 0} (m : Machine W) (drive : ℕ) (sector : W → ℕ → List ℕ)
    : Type 0 where
  pub reads : (w : W) (lba : ℕ) → m.read_disk drive lba 1 w ≡ done (0, sector w lba)
  pub full : (w : W) (lba : ℕ) → length (sector w lba) ≡ 512
  pub writes :
      (w : W) (lba : ℕ) (bytes : List ℕ)
      → length bytes ≡ 512
      → (w' : W) × (m.write_disk drive lba 1 bytes w ≡ done w')
        × (sector w' lba ≡ bytes)
        × ((l : ℕ) → l ≢ lba → sector w' l ≡ sector w l)

-- A sector's worth of bytes.
pub fit : ℕ → List ℕ → List ℕ
fit zero xs = []
fit (suc n) [] = 0 ∷ fit n []
fit (suc n) (x ∷ xs) = x ∷ fit n xs

length-fit : (n : ℕ) (xs : List ℕ) → length (fit n xs) ≡ n
unfolding fit
length-fit zero xs = refl
length-fit (suc n) [] = ap suc (length-fit n [])
length-fit (suc n) (x ∷ xs) = ap suc (length-fit n xs)

pub fit_self : (n : ℕ) (xs : List ℕ) → length xs ≡ n → fit n xs ≡ xs
unfolding fit
fit_self zero [] h = refl
fit_self zero (x ∷ xs) h = absurd (omega arith)
fit_self (suc n) [] h = absurd (omega arith)
fit_self (suc n) (x ∷ xs) h = rw (fit_self n xs (omega arith))

abbrev pub Sectors : Type 0
Sectors = ℕ → List ℕ

unfoldable pub memory_disk : Machine Sectors
memory_disk = record {
  read_disk = λ drive lba sectors w. done (0, fit 512 (w lba));
  write_disk = λ drive lba sectors bytes w. done (λ l. if l == lba then bytes else w l);
  fresh = λ n. replicate 512 0;
  block_for = λ n. some (replicate 512 0);
  fresh_words = λ n. replicate 128 0;
  stack = λ n. replicate n 0;
  pages = λ n. none;
  low = [];
}

pub memory_disk-IsMedium : (drive : ℕ) → IsMedium memory_disk drive (λ w lba. fit 512 (w lba))
unfolding memory_disk
memory_disk-IsMedium drive = record {
  reads = λ w lba. refl;
  full = λ w lba. length-fit 512 (w lba);
  writes = λ w lba bytes h.
      let same : (lba == lba) ≡ true = ground arith in
      (
        (λ (l : ℕ). if l == lba then bytes else w l),
        refl,
        rw same (fit_self 512 bytes h),
        λ l ne. let other : (l == lba) ≡ false = ground arith in rw other refl,
      );
}

pub memory_disk_room : length (memory_disk.fresh_words 512) ≡ 128
unfolding memory_disk
memory_disk_room = length-replicate {A = ℕ} 128 0
