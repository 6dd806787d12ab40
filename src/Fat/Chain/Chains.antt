-- ===== src/Fat/Chain/Chains.antt =====
-- The chains of a table: `clusters` are those from `cluster` on, up to an end mark or a free entry.
use libfat.Base.{
  ℕ, zero, suc, ◌+◌, ◌-◌, ◌≤◌, ◌<◌, ◌≡◌, ◌≢◌, ◌⊎◌, inl, inr, true, false, arith, ◌==◌,
  if◌then◌else◌, refl, sym, ap, ◌∙◌, Bool-cases,
}
use libfat.Base.Lists.{List, [], ◌∷◌, length, elem}
use native.Mathlib.Decide.{ℕ_discrete}
use libfat.Fat.Entry.{cluster_first, cluster_free, cluster_eof}
use libfat.Fat.Chain.Shows.{Links, set}

-- The table with these entries free.
abbrev pub freed : Links → List ℕ → Links
freed links xs d = if elem d xs then cluster_free else links d

module _ (last : ℕ) where
  abbrev pub IsChain : Links → ℕ → List ℕ → Type 0
  IsChain links cluster [] = (cluster ≡ cluster_eof) ⊎ (cluster ≡ cluster_free)
  IsChain links cluster (x ∷ xs) =
      (cluster ≡ x) × (cluster_first ≤ x) × (x ≤ last) × IsChain links (links x) xs

  abbrev Distinct : List ℕ → Type 0
  Distinct [] = Unit
  Distinct (x ∷ xs) = (elem x xs ≡ false) × (cluster_first ≤ x) × (x ≤ last) × Distinct xs

  -- The entries from `d` on that are free, among `left`.
  abbrev pub free_in : Links → ℕ → ℕ → ℕ
  free_in links d zero = 0
  free_in links d (suc left) =
      (if links d == cluster_free then 1 else 0) + free_in links (d + 1) left

  free_in-bound : (links : Links) (d left : ℕ) → free_in links d left ≤ left
  free_in-bound links d zero = omega arith
  free_in-bound links d (suc left) = ground (arith, free_in-bound links (d + 1) left)

  free_in-outside :
      (links : Links) (x d left : ℕ)
      → x < d
      → free_in (set links x cluster_free) d left ≡ free_in links d left
  free_in-outside links x d zero h = refl
  free_in-outside links x d (suc left) h =
      ground (arith, free_in-outside links x (d + 1) left (omega arith))

  free_in-set :
      (links : Links) (x d left : ℕ)
      → d ≤ x
      → x < d + left
      → links x ≢ cluster_free
      → free_in (set links x cluster_free) d left ≡ free_in links d left + 1
  free_in-set links x d zero lo hi used = absurd (omega arith)
  free_in-set links x d (suc left) lo hi used = elim (ℕ_discrete d x) [
    | yes e ↦ rw e (ground (arith, free_in-outside links x (x + 1) left (omega arith)))
    | no ne ↦ ground (arith, free_in-set links x (d + 1) left (omega arith) (omega arith) used)
  ]

  pub freed-cons :
      (links : Links) (x : ℕ) (xs : List ℕ)
      → freed links (x ∷ xs) ≡ set (freed links xs) x cluster_free
  freed-cons links x xs i d =
      let same : freed links (x ∷ xs) d ≡ set (freed links xs) x cluster_free d = ground arith in
      same i

  -- Numbers of the partition that differ are at most as many as the partition has.
  length-marked :
      (links : Links) (xs : List ℕ)
      → Distinct xs
      → ((d : ℕ) → links d ≢ cluster_free)
      → length xs ≤ free_in (freed links xs) cluster_first (last - 1)
  length-marked links [] d used = ground arith
  length-marked links (x ∷ xs) (new, lo, hi, d) used =
      let e =
        free_in-set (freed links xs) x cluster_first (last - 1) lo (omega arith)
          (rw new (used x)) in
      rw (freed-cons links x xs) (omega (arith, e, length-marked links xs d used))

  length-Distinct : (xs : List ℕ) → Distinct xs → length xs ≤ last - 1
  length-Distinct xs d = omega (
    arith,
    length-marked (λ d. cluster_eof) xs d (λ d z. absurd (omega arith)),
    free_in-bound (freed (λ d. cluster_eof) xs) cluster_first (last - 1),
  )

  -- A chain is determined by where it starts.
  length-IsChain :
      (links : Links) (c : ℕ) (xs ys : List ℕ)
      → last < cluster_eof
      → IsChain links c xs
      → IsChain links c ys
      → length xs ≡ length ys
  length-IsChain links c [] [] small f g = refl
  length-IsChain links c [] (y ∷ ys) small f (e, lo, hi, g) = absurd (ground arith)
  length-IsChain links c (x ∷ xs) [] small (e, lo, hi, f) g = absurd (ground arith)
  length-IsChain links c (x ∷ xs) (y ∷ ys) small (e, lo, hi, f) (e', lo', hi', g) =
      let s : x ≡ y = sym e ∙ e' in
      ap (λ n. 1 + n) (length-IsChain links (links x) xs ys small f (rw s g))

  suffix :
      (links : Links) (c x : ℕ) (xs : List ℕ)
      → IsChain links c xs
      → elem x xs ≡ true
      → (ys : List ℕ) × IsChain links x (x ∷ ys) × (length (x ∷ ys) ≤ length xs)
  suffix links c x [] f m = absurd cc
  suffix links c x (y ∷ ys) (e, lo, hi, f) m = elim (ℕ_discrete x y) [
    | yes same ↦ (ys, rw same (refl, lo, hi, f), omega arith)
    | no ne ↦
        let (zs, g, h) = suffix links (links y) x ys f (ground arith) in (zs, g, omega (arith, h))
  ]

  pub chain-Distinct :
      (links : Links) (c : ℕ) (xs : List ℕ) → last < cluster_eof → IsChain links c xs → Distinct xs
  chain-Distinct links c [] small f = tt
  chain-Distinct links c (x ∷ xs) small (e, lo, hi, f) = (
    elim (Bool-cases (elem x xs)) [
      | inl m ↦
          let (ys, g, h) = suffix links (links x) x xs f m in
          absurd
            (omega (arith, h, length-IsChain links x (x ∷ xs) (x ∷ ys) small (refl, lo, hi, f) g))
      | inr n ↦ n
    ],
    lo,
    hi,
    chain-Distinct links (links x) xs small f,
  )

  pub length-chain :
      (links : Links) (c : ℕ) (xs : List ℕ)
      → last < cluster_eof
      → IsChain links c xs
      → length xs ≤ last - 1
  length-chain links c xs small f = length-Distinct xs (chain-Distinct links c xs small f)

  -- Freeing a cluster that a chain does not have leaves the chain.
  pub set-IsChain :
      (links : Links) (c x v : ℕ) (xs : List ℕ)
      → IsChain links c xs
      → elem x xs ≡ false
      → IsChain (set links x v) c xs
  set-IsChain links c x v [] f n = f
  set-IsChain links c x v (y ∷ ys) (e, lo, hi, f) n =
      let same : set links x v y ≡ links y = ground arith in
      (e, lo, hi, rw same (set-IsChain links (links y) x v ys f (ground arith)))

  pub set-freed :
      (links : Links) (x : ℕ) (xs : List ℕ) (d : ℕ)
      → freed (set links x cluster_free) xs d ≡ freed links (x ∷ xs) d
  set-freed links x xs d = ground arith
