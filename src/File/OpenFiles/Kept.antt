-- ===== src/File/OpenFiles/Kept.antt =====
-- Opening and closing a file keep the list of open files.
use libfat.Base.{
  ℕ, ◌+◌, ◌^◌, ◌<◌, ◌≡◌, ◌≢◌, inl, inr, true, false, Option, none, some, arith, refl, sym, ◌∙◌,
}
use libfat.Base.Lists.{List, [], ◌∷◌, elem, length}
use native.Mathlib.Decide.{ℕ_discrete}
use libfat.File.OpenFiles.{
  OpenFiles, set_link, link_first, insert_open_file, unlink_next, unlink_prev, remove_open_file,
}
use libfat.File.OpenFiles.Listed.{
  IsListed, remove, set_link-other, set_link-same, some-injective, frame_next, frame_prev,
  successor, predecessor, remove-IsListed, next_after, prev_after,
}

-- The list of a partition: distinct files, and how many there are.
pub record IsOpenList (o : OpenFiles) (xs : List ℕ) : Type 0 where
  pub listed : IsListed o.next_open_file o.prev_open_file none o.first_open_file xs
  pub counted : o.open_file_count ≡ length xs
  pub small : length xs < 2 ^ 32

insert-first :
    (o : OpenFiles) (f : ℕ) (first : Option ℕ) (xs : List ℕ)
    → elem f xs ≡ false
    → IsListed o.next_open_file o.prev_open_file none first xs
    → let o' = link_first o f first in
      IsListed o'.next_open_file
        (set_link o'.prev_open_file f none)
        (some f)
        (o'.next_open_file f)
        xs
insert-first o f none [] new l = set_link-same o.next_open_file f none
insert-first o f (some z) [] new l = absurd cc
insert-first o f none (x ∷ xs) new (e', b, new', l) = absurd cc
insert-first o f (some z) (x ∷ xs) new (e', b, new', l) =
    let s : z ≡ x = some-injective z x e' in
    let out : elem f xs ≡ false = ground arith in
    let out' : elem z xs ≡ false = rw s new' in
    let ne : x ≢ f = λ (w : x ≡ f). absurd (ground arith) in
    let next = o.next_open_file in
    let prev = o.prev_open_file in
    let prev' = set_link prev z (some f) in
    let t : prev' x ≡ some f = rw s (set_link-same prev x (some f)) in
    let l1 = frame_prev next prev (some x) (next x) xs z (some f) out' l in
    let l2 = frame_prev next prev' (some x) (next x) xs f none out l1 in
    let l3 = frame_next next (set_link prev' f none) (some x) (next x) xs f (some z) out l2 in
    (
      set_link-same next f (some z) ∙ e',
      set_link-other prev' f x none ne ∙ t,
      new',
      rw (set_link-other next f x (some z) ne) l3,
    )

-- A file that is opened becomes the first of the list, where it was not in it.
pub insert_open_file-IsOpenList :
    (o : OpenFiles) (f : ℕ) (xs : List ℕ)
    → IsOpenList o xs
    → elem f xs ≡ false
    → length xs + 1 < 2 ^ 32
    → IsOpenList (insert_open_file o f) (f ∷ xs)
unfolding insert_open_file
insert_open_file-IsOpenList o f xs l new room = record {
  listed = (
    refl,
    set_link-same (link_first o f o.first_open_file).prev_open_file f none,
    new,
    insert-first o f o.first_open_file xs new l.listed,
  );
  counted = omega (arith, l.counted);
  small = omega arith;
}

unlink_lem :
    (o : OpenFiles) (f : ℕ) (n b : Option ℕ)
    → let o' = unlink_prev (unlink_next o f n) f b in
      (o'.next_open_file ≡ next_after o.next_open_file o.prev_open_file f b)
      × (o'.prev_open_file ≡ prev_after o.next_open_file o.prev_open_file f n)
      × (b ≡ none → o'.first_open_file ≡ o.next_open_file f)
      × ((c : ℕ) → b ≡ some c → o'.first_open_file ≡ o.first_open_file)
unlink_lem o f none none = (refl, refl, (λ e. refl), (λ c e. absurd cc))
unlink_lem o f none (some b) = (refl, refl, (λ e. absurd cc), (λ c e. refl))
unlink_lem o f (some n) none = (refl, refl, (λ e. refl), (λ c e. absurd cc))
unlink_lem o f (some n) (some b) = (refl, refl, (λ e. absurd cc), (λ c e. refl))

length-remove : (f : ℕ) (xs : List ℕ) → elem f xs ≡ true → length (remove f xs) + 1 ≡ length xs
length-remove f [] m = absurd cc
length-remove f (x ∷ xs) m = elim (ℕ_discrete x f) [
  | yes s ↦ ground arith
  | no ne ↦ ground (arith, length-remove f xs (ground arith))
]

-- The previous pointer of the file is read after that of the next file has changed.
same_prev :
    (o : OpenFiles) (f : ℕ) (n : Option ℕ)
    → ((y : ℕ) → n ≡ some y → f ≢ y)
    → (unlink_next o f n).prev_open_file f ≡ o.prev_open_file f
same_prev o f none apart = refl
same_prev o f (some y) apart =
    set_link-other o.prev_open_file y f (o.prev_open_file f) (apart y refl)

-- A file that is closed leaves the list, and the others stay in their order.
pub remove_open_file-IsOpenList :
    (o : OpenFiles) (f : ℕ) (xs : List ℕ)
    → IsOpenList o xs
    → elem f xs ≡ true
    → IsOpenList (remove_open_file o f) (remove f xs)
unfolding remove_open_file
remove_open_file-IsOpenList o f xs l m =
    let next = o.next_open_file in
    let prev = o.prev_open_file in
    let first = o.first_open_file in
    let apart : (y : ℕ) → next f ≡ some y → f ≢ y =
      λ y e z. (successor next prev none first xs f y l.listed m e).1 (sym z) in
    let b = prev f in
    let same = same_prev o f (next f) apart in
    let (n, p, at_first, behind) = unlink_lem o f (next f) b in
    let back = predecessor next prev none first xs f l.listed m in
    let len = length-remove f xs m in
    record {
      listed =
          rw (same, n, p)
            (remove-IsListed next prev f none first _ xs (λ c e. absurd cc) m l.listed
              (λ h. elim back [ inl (h', p') ↦ at_first p' | inr (nn, _) ↦ absurd (nn h) ])
              (λ h. elim back [
                | inl (h', p') ↦ absurd (h h')
                | inr (_, (c, pc, _)) ↦ behind c pc
              ]));
      counted = omega (arith, l.counted, len, l.small);
      small = omega (arith, len, l.small);
    }
