-- ===== src/Util/Strings.antt =====
-- Terminated strings in a buffer, and what `strlen` and the comparisons answer on them.
use Prim.Native.Nat.{min}
use mathlib.Core.List.{tail}
use vireo_kernel.Prelude.{
  ℕ, zero, suc, ◌+◌, ◌<◌, ◌≡◌, ◌≢◌, ◌↔◌, ◌⊎◌, inl, inr, refl, arith, ap, ◌∙◌, Bool, true, false,
  List, [], ◌∷◌, ◌++◌, some, length, take, done, ℕ_discrete, Bool-cases,
}
use vireo_kernel.Util.{strlen_from, strlen, strcmp_loop, strcmp, strcmp_until_loop, strcmp_until}

-- A text: no character is the terminator.
abbrev pub IsText : List ℕ → Type 0
IsText [] = Unit
IsText (c ∷ s) = (c ≢ 0) × IsText s

-- The buffer that holds the text, its terminator and what comes after.
abbrev pub terminated : List ℕ → List ℕ → List ℕ
terminated s rest = s ++ 0 ∷ rest

strlen_from_lem :
    (s rest : List ℕ) (i : ℕ) → IsText s → strlen_from (terminated s rest) i ≡ done (i + length s)
unfolding strlen_from
strlen_from_lem [] rest i h = ap done (omega arith)
strlen_from_lem (c ∷ s) rest i h = ground (arith, strlen_from_lem s rest (i + 1) h.1)

-- `strlen` of a terminated text is its length, and 0 of NULL.
pub strlen_lem : (s rest : List ℕ) → IsText s → strlen (some (terminated s rest)) ≡ done (length s)
unfolding strlen
strlen_lem s rest h = strlen_from_lem s rest 0 h ∙ ap done (omega arith)

-- On texts of one length the loop of `strcmp` decides equality.
strcmp_loop_lem :
    (s t r q : List ℕ)
    → IsText s
    → IsText t
    → length s ≡ length t
    → (b : Bool) × (strcmp_loop (terminated s r) (terminated t q) ≡ done b) × ((b ≡ true) ↔ (s ≡ t))
unfolding strcmp_loop
strcmp_loop_lem [] [] r q hs ht e = (true, refl, (λ x. refl, λ x. refl))
strcmp_loop_lem [] (d ∷ t) r q hs ht e = absurd (omega arith)
strcmp_loop_lem (c ∷ s) [] r q hs ht e = absurd (omega arith)
strcmp_loop_lem (c ∷ s) (d ∷ t) r q hs ht e =
    let (b, run, iff) = strcmp_loop_lem s t r q hs.1 ht.1 (omega arith) in
    elim (ℕ_discrete c d) [
      | yes same ↦ (b, ground arith, (λ x. ground (arith, iff.0 x), λ x. iff.1 (ground arith)))
      | no differ ↦ (false, ground arith, (λ x. absurd (cc), λ x. absurd (differ (ground arith))))
    ]

-- `strcmp` on two terminated texts answers 0 if they are equal and 1 if not.
pub strcmp_lem :
    (s t r q : List ℕ)
    → IsText s
    → IsText t
    → ((strcmp (terminated s r) (terminated t q) ≡ done 0) × (s ≡ t))
      ⊎ ((strcmp (terminated s r) (terminated t q) ≡ done 1) × (s ≢ t))
unfolding strcmp
strcmp_lem s t r q hs ht = elim (ℕ_discrete (length s) (length t)) [
  | no differ ↦
      inr (rw (strlen_lem s r hs, strlen_lem t q ht) (ground arith), λ e. differ (ap length e))
  | yes same ↦
      let (b, run, iff) = strcmp_loop_lem s t r q hs ht same in
      elim (Bool-cases b) [
        | inl e ↦ inl (rw (strlen_lem s r hs, strlen_lem t q ht, run, e) (ground arith), iff.0 e)
        | inr e ↦ inr (
          rw (strlen_lem s r hs, strlen_lem t q ht, run, e) (ground arith),
          λ eq. absurd (let k = iff.1 eq in cc),
        )
      ]
]

-- The number of characters that `strcmp_until` compares at most.
abbrev pub compared : List ℕ → List ℕ → ℕ → ℕ
compared s t stop = min stop (min (length s) (length t))

-- Both texts agree as far as they are compared.
abbrev pub AgreeUntil : ℕ → List ℕ → List ℕ → Type 0
AgreeUntil stop s t = take (compared s t stop) s ≡ take (compared s t stop) t

AgreeUntil-zero : (s t : List ℕ) (stop : ℕ) → compared s t stop ≡ 0 → AgreeUntil stop s t
AgreeUntil-zero s t stop e = rw e refl

AgreeUntil-cons :
    (s t : List ℕ) (c stop : ℕ) → AgreeUntil stop s t ↔ AgreeUntil (suc stop) (c ∷ s) (c ∷ t)
AgreeUntil-cons s t c stop =
    let e : compared (c ∷ s) (c ∷ t) (suc stop) ≡ suc (compared s t stop) = omega arith in
    (λ h. rw e (ap (λ r. c ∷ r) h), λ h. ap tail (rw e at h))

AgreeUntil-head :
    (s t : List ℕ) {c d : ℕ} (stop : ℕ) → AgreeUntil (suc stop) (c ∷ s) (d ∷ t) → c ≡ d
AgreeUntil-head s t {c} {d} stop h =
    let e : compared (c ∷ s) (d ∷ t) (suc stop) ≡ suc (compared s t stop) = omega arith in
    let k : c ∷ take (compared s t stop) s ≡ d ∷ take (compared s t stop) t = rw e at h in cc

strcmp_until_loop_lem :
    (s t r q : List ℕ) (stop : ℕ)
    → IsText s
    → IsText t
    → (b : Bool) × (strcmp_until_loop (terminated s r) (terminated t q) stop ≡ done b)
      × ((b ≡ true) ↔ AgreeUntil stop s t)
unfolding strcmp_until_loop
strcmp_until_loop_lem [] [] r q zero hs ht =
    (true, refl, (λ x. AgreeUntil-zero [] [] zero (omega arith), λ x. refl))
strcmp_until_loop_lem [] [] r q (suc stop) hs ht =
    (true, refl, (λ x. AgreeUntil-zero [] [] (suc stop) (omega arith), λ x. refl))
strcmp_until_loop_lem [] (d ∷ t) r q zero hs ht =
    (true, refl, (λ x. AgreeUntil-zero [] (d ∷ t) zero (omega arith), λ x. refl))
strcmp_until_loop_lem [] (d ∷ t) r q (suc stop) hs ht =
    (true, refl, (λ x. AgreeUntil-zero [] (d ∷ t) (suc stop) (omega arith), λ x. refl))
strcmp_until_loop_lem (c ∷ s) [] r q zero hs ht =
    (true, refl, (λ x. AgreeUntil-zero (c ∷ s) [] zero (omega arith), λ x. refl))
strcmp_until_loop_lem (c ∷ s) [] r q (suc stop) hs ht =
    (true, ground arith, (λ x. AgreeUntil-zero (c ∷ s) [] (suc stop) (omega arith), λ x. refl))
strcmp_until_loop_lem (c ∷ s) (d ∷ t) r q zero hs ht =
    (true, refl, (λ x. AgreeUntil-zero (c ∷ s) (d ∷ t) zero (omega arith), λ x. refl))
strcmp_until_loop_lem (c ∷ s) (d ∷ t) r q (suc stop) hs ht =
    let (b, run, iff) = strcmp_until_loop_lem s t r q stop hs.1 ht.1 in
    elim (ℕ_discrete c d) [
      | yes same ↦ (
        b,
        ground arith,
        rw same (
          λ x. (AgreeUntil-cons s t d stop).0 (iff.0 x),
          λ x. iff.1 ((AgreeUntil-cons s t d stop).1 x),
        ),
      )
      | no differ ↦ (
        false,
        ground arith,
        (λ x. absurd (cc), λ x. absurd (differ (AgreeUntil-head s t stop x))),
      )
    ]

-- `strcmp_until` with a count above 0, on two texts that are not empty, answers 0 exactly if they
-- agree up to the count or to the end of the shorter text. So a proper prefix counts as equal.
pub strcmp_until_lem :
    (c d : ℕ) (s t r q : List ℕ) (stop : ℕ)
    → IsText (c ∷ s)
    → IsText (d ∷ t)
    → 0 < stop
    → ((strcmp_until (terminated (c ∷ s) r) (terminated (d ∷ t) q) stop ≡ done 0)
        × AgreeUntil stop (c ∷ s) (d ∷ t))
      ⊎ ((strcmp_until (terminated (c ∷ s) r) (terminated (d ∷ t) q) stop ≡ done 1)
          × ¬ (AgreeUntil stop (c ∷ s) (d ∷ t)))
unfolding strcmp_until
strcmp_until_lem c d s t r q zero hs ht pos = absurd (omega arith)
strcmp_until_lem c d s t r q (suc stop) hs ht pos =
    let (b, run, iff) = strcmp_until_loop_lem (c ∷ s) (d ∷ t) r q (suc stop) hs ht in
    elim (Bool-cases b) [
      | inl e ↦
          let same : c ≡ d = AgreeUntil-head s t stop (iff.0 e) in
          inl (rw (run, e) (ground arith), iff.0 e)
      | inr e ↦ inr (rw (run, e) (ground arith), λ a. absurd (let k = iff.1 a in cc))
    ]
