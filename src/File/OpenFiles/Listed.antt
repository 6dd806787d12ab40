-- ===== src/File/OpenFiles/Listed.antt =====
-- The list of open files stays a double-linked list of distinct files.
use libfat.Base.{
  ℕ, ◌≡◌, ◌≢◌, ◌⊎◌, inl, inr, true, false, Option, none, some, arith, ◌==◌, if◌then◌else◌, refl, ap,
  sym, ◌∙◌,
}
use libfat.Base.Lists.{List, [], ◌∷◌, elem}
use native.Mathlib.Decide.{ℕ_discrete}
use libfat.File.OpenFiles.{set_link}

abbrev pub Pointers : Type 0
Pointers = ℕ → Option ℕ

-- From `first` on the next pointers go through `xs`, each file once, and the previous ones back to
-- `before`.
abbrev pub IsListed : Pointers → Pointers → Option ℕ → Option ℕ → List ℕ → Type 0
IsListed next prev before first [] = first ≡ none
IsListed next prev before first (x ∷ xs) =
    (first ≡ some x)
    × (prev x ≡ before)
    × (elem x xs ≡ false)
    × IsListed next prev (some x) (next x) xs

abbrev pub remove : ℕ → List ℕ → List ℕ
remove f [] = []
remove f (x ∷ xs) = if x == f then xs else x ∷ remove f xs

pub some-injective : (a b : ℕ) → some a ≡ some b → a ≡ b
some-injective a b e = cc

pub set_link-other : (p : Pointers) (y x : ℕ) (v : Option ℕ) → x ≢ y → set_link p y v x ≡ p x
set_link-other p y x v ne = ground arith

pub set_link-same : (p : Pointers) (y : ℕ) (v : Option ℕ) → set_link p y v y ≡ v
set_link-same p y v = ground arith

-- Pointers of a file that is not listed do not matter.
pub frame_next :
    (next prev : Pointers) (before first : Option ℕ) (xs : List ℕ) (y : ℕ) (v : Option ℕ)
    → elem y xs ≡ false
    → IsListed next prev before first xs
    → IsListed (set_link next y v) prev before first xs
frame_next next prev before first [] y v out l = l
frame_next next prev before first (x ∷ xs) y v out (e, b, new, l) =
    let ne : x ≢ y = λ (z : x ≡ y). absurd (ground (arith, z)) in
    let out' : elem y xs ≡ false = ground arith in
    (
      e,
      b,
      new,
      rw (set_link-other next y x v ne) (frame_next next prev (some x) (next x) xs y v out' l),
    )

pub frame_prev :
    (next prev : Pointers) (before first : Option ℕ) (xs : List ℕ) (y : ℕ) (v : Option ℕ)
    → elem y xs ≡ false
    → IsListed next prev before first xs
    → IsListed next (set_link prev y v) before first xs
frame_prev next prev before first [] y v out l = l
frame_prev next prev before first (x ∷ xs) y v out (e, b, new, l) =
    let ne : x ≢ y = λ (z : x ≡ y). absurd (ground (arith, z)) in
    let out' : elem y xs ≡ false = ground arith in
    (e, set_link-other prev y x v ne ∙ b, new, frame_prev next prev (some x) (next x) xs y v out' l)

-- The file behind a listed one is listed, and another one.
pub successor :
    (next prev : Pointers) (before first : Option ℕ) (xs : List ℕ) (f y : ℕ)
    → IsListed next prev before first xs
    → elem f xs ≡ true
    → next f ≡ some y
    → (elem y xs ≡ true) × (y ≢ f)
successor next prev before first [] f y l m e = absurd cc
successor next prev before first (x ∷ []) f y (e0, b, new, l) m e =
    let s : x ≡ f = ground arith in let q : some y ≡ none = sym e ∙ ap next (sym s) ∙ l in absurd cc
successor next prev before first (x ∷ (z ∷ xs)) f y (e0, b, new, l) m e = elim (ℕ_discrete x f) [
  | yes s ↦
      let t : y ≡ z = some-injective y z (sym e ∙ ap next (sym s) ∙ l.0) in
      (ground arith, λ (w : y ≡ f). absurd (ground arith))
  | no ne ↦
      let (m', ne') = successor next prev (some x) (next x) (z ∷ xs) f y l (ground arith) e in
      (ground (arith, m'), ne')
]

-- The previous pointer of a listed file: the one before the list, or a listed file.
pub predecessor :
    (next prev : Pointers) (before first : Option ℕ) (xs : List ℕ) (f : ℕ)
    → IsListed next prev before first xs
    → elem f xs ≡ true
    → ((first ≡ some f) × (prev f ≡ before))
      ⊎ ((first ≢ some f) × ((b : ℕ) × (prev f ≡ some b) × (elem b xs ≡ true)))
predecessor next prev before first [] f l m = absurd cc
predecessor next prev before first (x ∷ xs) f (e, b, new, l) m = elim (ℕ_discrete x f) [
  | yes s ↦ inl (e ∙ ap some s, ap prev (sym s) ∙ b)
  | no ne ↦
      let other : first ≢ some f = λ (z : first ≡ some f). ne (some-injective x f (sym e ∙ z)) in
      elim (predecessor next prev (some x) (next x) xs f l (ground arith)) [
        | inl (n, p) ↦ inr (other, (x, p, ground arith))
        | inr (n, (c, p, m')) ↦ inr (other, (c, p, ground (arith, m')))
      ]
]

elem-apart : (x y : ℕ) (xs : List ℕ) → elem x xs ≡ false → elem y xs ≡ true → x ≢ y
elem-apart x y xs out in_ z = let w = rw z at out in absurd cc

remove-elem : (f x : ℕ) (xs : List ℕ) → elem x xs ≡ false → elem x (remove f xs) ≡ false
remove-elem f x [] out = refl
remove-elem f x (y ∷ ys) out =
    let rest : elem x (remove f ys) ≡ false = remove-elem f x ys (ground arith) in ground arith

module _ (next prev : Pointers) (f : ℕ) where
  -- The next pointers once `f` is taken out, where its previous one is `p`; the previous pointers,
  -- where its next one is `n`.
  abbrev pub next_after : Option ℕ → Pointers
  next_after none = next
  next_after (some b) = set_link next b (next f)

  abbrev pub prev_after : Option ℕ → Pointers
  prev_after none = prev
  prev_after (some y) = set_link prev y (prev f)

  -- `xs` stands behind `f`: its first file points back to the one before `f`.
  point_back :
      (before n : Option ℕ) (xs : List ℕ)
      → prev f ≡ before
      → IsListed next prev (some f) n xs
      → IsListed next (prev_after n) before n xs
  point_back before n [] p l = l
  point_back before none (y ∷ ys) p (e, b, new, l) = absurd cc
  point_back before (some z) (y ∷ ys) p (e, b, new, l) =
      let s : z ≡ y = some-injective z y e in
      let t : set_link prev z (prev f) y ≡ prev f = rw s (set_link-same prev y (prev f)) in
      let out : elem z ys ≡ false = rw s new in
      (e, t ∙ p, new, frame_prev next prev (some y) (next y) ys z (prev f) out l)

  -- The file before `f` is not among those behind it.
  point_on :
      (prev' : Pointers) (before n : Option ℕ) (xs : List ℕ)
      → ((b : ℕ) → before ≡ some b → elem b xs ≡ false)
      → IsListed next prev' before n xs
      → IsListed (next_after before) prev' before n xs
  point_on prev' none n xs out l = l
  point_on prev' (some c) n xs out l = frame_next next prev' (some c) n xs c (next f) (out c refl) l

  prev_after-other :
      (n : Option ℕ) (x : ℕ) → ((y : ℕ) → n ≡ some y → x ≢ y) → prev_after n x ≡ prev x
  prev_after-other none x apart = refl
  prev_after-other (some y) x apart = set_link-other prev y x (prev f) (apart y refl)

  -- The next pointer of a file that stands before `f`.
  next_after_lem :
      (x : ℕ) (xs : List ℕ)
      → elem x xs ≡ false
      → ((next x ≡ some f) × (prev f ≡ some x))
        ⊎ ((next x ≢ some f) × ((b : ℕ) × (prev f ≡ some b) × (elem b xs ≡ true)))
      → (next x ≡ some f → next_after (prev f) x ≡ next f)
        × (next x ≢ some f → next_after (prev f) x ≡ next x)
  next_after_lem x xs new (inl (n, p)) =
      ((λ h. rw p (set_link-same next x (next f))), (λ h. absurd (h n)))
  next_after_lem x xs new (inr (n, (c, p, m))) = (
    (λ h. absurd (n h)),
    (λ h. rw p (set_link-other next c x (next f) (elem-apart x c xs new m))),
  )

  pub remove-IsListed :
      (before first first' : Option ℕ) (xs : List ℕ)
      → ((b : ℕ) → before ≡ some b → elem b xs ≡ false)
      → elem f xs ≡ true
      → IsListed next prev before first xs
      → (first ≡ some f → first' ≡ next f)
      → (first ≢ some f → first' ≡ first)
      → IsListed (next_after (prev f)) (prev_after (next f)) before first' (remove f xs)
  remove-IsListed before first first' [] out m l at other = absurd cc
  remove-IsListed before first first' (x ∷ xs) out m (e, b, new, l) at other =
      elim (ℕ_discrete x f) [
        | yes s ↦
            let p : prev f ≡ before = ap prev (sym s) ∙ b in
            let n : first' ≡ next f = at (e ∙ ap some s) in
            let behind = rw s at l in
            let out' : (c : ℕ) → before ≡ some c → elem c xs ≡ false =
              λ c h. let o = out c h in ground arith in
            let t : (x == f) ≡ true = ground arith in
            rw (t, p, n)
              (point_on (prev_after (next f)) before (next f) xs out'
                (point_back before (next f) xs p behind))
        | no ne ↦
            let not_first : first ≢ some f =
              λ (z : first ≡ some f). ne (some-injective x f (sym e ∙ z)) in
            let m' : elem f xs ≡ true = ground arith in
            let out' : (c : ℕ) → some x ≡ some c → elem c xs ≡ false =
              λ c h. let z = some-injective x c h in rw (sym z) new in
            let t : (x == f) ≡ false = ground arith in
            let apart : (y : ℕ) → next f ≡ some y → x ≢ y = λ y h.
              let (in_, _) = successor next prev (some x) (next x) xs f y l m' h in
              elem-apart x y xs new in_ in
            let back = prev_after-other (next f) x apart ∙ b in
            let (on, off) =
              next_after_lem x xs new (predecessor next prev (some x) (next x) xs f l m') in
            rw t (
              other not_first ∙ e,
              back,
              remove-elem f x xs new,
              remove-IsListed (some x) (next x) (next_after (prev f) x) xs out' m' l on off,
            )
      ]
