-- ===== src/ProcTable/AdjSlot.antt =====
-- lmkd.cpp: the ring of a slot, `struct adjslot_list`, on a heap of `next` and `prev`. An address is a
-- number; a head and the records of its slot have different addresses.
use android_system_memory_lm.Base.{
  ℕ, ◌≤◌, ◌<◌, ◌≡◌, inl, inr, refl, sym, subst, ◌∙◌, arith, List, [], ◌∷◌, Option, none, some, true,
  false, ◌==◌, if◌then◌else◌, update, count, erase, get_last?, count-erase, Bool-cases,
}

pub record Ring : Type 0 where
  pub next : ℕ → ℕ
  pub prev : ℕ → ℕ

unfoldable pub adjslot_insert : ℕ → ℕ → Ring → Ring
adjslot_insert head new_element r =
    let next = r.next head in
    let r₁ = record r {
      prev = update r.prev new_element head;
      next = update r.next new_element next;
    } in
    record r₁ { prev = update r₁.prev next new_element; next = update r₁.next head new_element }

unfoldable pub adjslot_remove : ℕ → Ring → Ring
adjslot_remove old r =
    let prev = r.prev old in
    let next = r.next old in
    record r { prev = update r.prev next prev; next = update r.next prev next }

unfoldable pub adjslot_tail : ℕ → Ring → Option ℕ
adjslot_tail head r = let asl = r.prev head in if asl == head then none else some asl

-- The elements `xs` follow `last` on the ring, up to the head.
abbrev pub Linked : ℕ → ℕ → List ℕ → Ring → Type 0
Linked head last [] r = (r.next last ≡ head) × (r.prev head ≡ last)
Linked head last (x ∷ xs) r = (r.next last ≡ x) × (r.prev x ≡ last) × Linked head x xs r

-- The ring of a head has these elements, each once, in the order of `next`.
pub record IsRing (head : ℕ) (xs : List ℕ) (r : Ring) : Type 0 where
  pub linked : Linked head head xs r
  pub distinct : (a : ℕ) → count a (head ∷ xs) ≤ 1

-- Changes to other addresses.
Linked-same :
    (head last : ℕ) (xs : List ℕ) (r u : Ring)
    → ((a : ℕ) → 0 < count a (last ∷ xs) → u.next a ≡ r.next a)
    → ((a : ℕ) → 0 < count a (head ∷ xs) → u.prev a ≡ r.prev a)
    → Linked head last xs r
    → Linked head last xs u
Linked-same head last [] r u f g h = (f last (ground arith) ∙ h.0, g head (ground arith) ∙ h.1)
Linked-same head last (x ∷ xs) r u f g h = (
  f last (ground arith) ∙ h.0,
  g x (ground arith) ∙ h.1,
  Linked-same head x xs r u (λ b c. f b (omega arith)) (λ b c. g b (omega arith)) h.2,
)

-- The last element, or the one in front of all.
abbrev end_of : ℕ → List ℕ → ℕ
end_of last [] = last
end_of last (x ∷ xs) = end_of x xs

Linked-end :
    (head last : ℕ) (xs : List ℕ) (r : Ring) → Linked head last xs r → r.prev head ≡ end_of last xs
Linked-end head last [] r h = h.1
Linked-end head last (x ∷ xs) r h = Linked-end head x xs r h.2

end_of-get_last? :
    (last : ℕ) (x : ℕ) (xs : List ℕ) → get_last? (x ∷ xs) ≡ some (end_of last (x ∷ xs))
end_of-get_last? last x [] = refl
end_of-get_last? last x (y ∷ ys) = end_of-get_last? x y ys

end_of-count : (x : ℕ) (xs : List ℕ) → 0 < count (end_of x xs) (x ∷ xs)
end_of-count x [] = ground arith
end_of-count x (y ∷ ys) = omega (arith, end_of-count y ys)

-- `adjslot_tail` of a ring is the last element of its list.
adjslot_tail-IsRing :
    (head : ℕ) (xs : List ℕ) (r : Ring) → IsRing head xs r → adjslot_tail head r ≡ get_last? xs
unfolding adjslot_tail
adjslot_tail-IsRing head [] r v = ground (arith, v.linked)
adjslot_tail-IsRing head (x ∷ xs) r v = ground (
  arith,
  Linked-end head head (x ∷ xs) r v.linked,
  end_of-get_last? head x xs,
  end_of-count x xs,
  v.distinct head,
)

-- `adjslot_insert` of an element that is not on the ring puts it in front of the others.
pub adjslot_insert-IsRing :
    (head new : ℕ) (xs : List ℕ) (r : Ring)
    → IsRing head xs r
    → count new (head ∷ xs) ≡ 0
    → IsRing head (new ∷ xs) (adjslot_insert head new r)
unfolding adjslot_insert
adjslot_insert-IsRing head new [] r v fresh = record {
  linked = (
    ground (arith, v.linked, fresh),
    ground (arith, v.linked, fresh),
    (ground (arith, v.linked, fresh), ground (arith, v.linked, fresh)),
  );
  distinct = λ a. ground (arith, v.distinct a, fresh);
}
adjslot_insert-IsRing head new (x ∷ xs) r v fresh =
    let (first, back, rest) = v.linked in
    record {
      linked = (
        ground (arith, first, fresh),
        ground (arith, first, fresh),
        (
          ground (arith, first, fresh),
          ground (arith, first, fresh),
          Linked-same head x xs r (adjslot_insert head new r)
              (λ a c. ground (arith, c, v.distinct head, fresh))
              (λ a c. ground (arith, c, first, v.distinct x, fresh)) rest,
        ),
      );
      distinct = λ a. ground (arith, v.distinct a, fresh);
    }

-- The neighbours of an element.
prev-count :
    (head last old : ℕ) (xs : List ℕ) (r : Ring)
    → Linked head last xs r
    → 0 < count old xs
    → 0 < count (r.prev old) (last ∷ xs)
prev-count head last old [] r h c = absurd (omega arith)
prev-count head last old (x ∷ xs) r h c = ground (arith, h.1, c, prev-count head x old xs r h.2)

next-count :
    (head last old : ℕ) (xs : List ℕ) (r : Ring)
    → Linked head last xs r
    → 0 < count old xs
    → 0 < count (r.next old) (head ∷ xs)
next-count head last old [] r h c = absurd (omega arith)
next-count head last old (x ∷ []) r h c = ground (arith, h.2, c)
next-count head last old (x ∷ y ∷ ys) r h c =
    ground (arith, h.2, c, next-count head x old (y ∷ ys) r h.2)

-- Unlinking the first element.
remove-first :
    (head last old : ℕ) (xs : List ℕ) (r : Ring)
    → Linked head last (old ∷ xs) r
    → ((a : ℕ) → count a (last ∷ old ∷ xs) ≤ 1)
    → ((a : ℕ) → count a (head ∷ old ∷ xs) ≤ 1)
    → Linked head last xs (adjslot_remove old r)
unfolding adjslot_remove
remove-first head last old [] r h d e = (ground (arith, h.1, h.2), ground (arith, h.1, h.2))
remove-first head last old (y ∷ ys) r (first, back, (ahead, behind, rest)) d e = (
  ground (arith, back, ahead),
  ground (arith, back, ahead),
  Linked-same head y ys r (adjslot_remove old r) (λ a c. ground (arith, c, back, d last))
      (λ a c. ground (arith, c, ahead, e y)) rest,
)

erase-same : (old x : ℕ) (xs : List ℕ) → x == old ≡ true → erase old (x ∷ xs) ≡ xs
erase-same old x xs same = rw same refl

erase-other : (old x : ℕ) (xs : List ℕ) → x == old ≡ false → erase old (x ∷ xs) ≡ x ∷ erase old xs
erase-other old x xs other = rw other refl

-- Unlinking a later element, one step.
remove-later :
    (head last old x : ℕ) (xs : List ℕ) (r : Ring)
    → Linked head last (x ∷ xs) r
    → 0 < count old xs
    → ((a : ℕ) → count a (last ∷ x ∷ xs) ≤ 1)
    → ((a : ℕ) → count a (head ∷ x ∷ xs) ≤ 1)
    → ((adjslot_remove old r).next last ≡ x) × ((adjslot_remove old r).prev x ≡ last)
unfolding adjslot_remove
remove-later head last old x xs r (first, back, rest) c d e =
    let before = prev-count head x old xs r rest c in
    let after = next-count head x old xs r rest c in
    (ground (arith, first, before, d last), ground (arith, back, after, e x))

remove-Linked :
    (head last old : ℕ) (xs : List ℕ) (r : Ring)
    → Linked head last xs r
    → 0 < count old xs
    → ((a : ℕ) → count a (last ∷ xs) ≤ 1)
    → ((a : ℕ) → count a (head ∷ xs) ≤ 1)
    → Linked head last (erase old xs) (adjslot_remove old r)
remove-Linked head last old [] r h c d e = absurd (omega arith)
remove-Linked head last old (x ∷ xs) r h c d e = elim (Bool-cases (x == old)) [
  | inl same ↦
      let it : x ≡ old = ground (arith, same) in
      subst (λ ys. Linked head last ys (adjslot_remove old r)) (sym (erase-same old x xs same))
        (subst (λ y. Linked head last xs (adjslot_remove y r)) it
          (remove-first head last x xs r h d e))
  | inr other ↦
      let later : 0 < count old xs = ground (arith, c, other) in
      let (ahead, behind) = remove-later head last old x xs r h later d e in
      subst (λ ys. Linked head last ys (adjslot_remove old r)) (sym (erase-other old x xs other))
        (
          ahead,
          behind,
          remove-Linked head x old xs r h.2 later (λ a. omega (arith, d a))
              (λ a. omega (arith, e a)),
        )
]

-- `adjslot_remove` of an element of the ring takes it out of the list.
adjslot_remove-IsRing :
    (head old : ℕ) (xs : List ℕ) (r : Ring)
    → IsRing head xs r
    → 0 < count old xs
    → IsRing head (erase old xs) (adjslot_remove old r)
adjslot_remove-IsRing head old xs r v c = record {
  linked = remove-Linked head head old xs r v.linked c v.distinct v.distinct;
  distinct = λ a. ground (arith, v.distinct a, count-erase a old xs);
}

-- The ring is the list of its elements: with `new` not on it and `old` on it, adjslot_tail is the last
-- element of the list, adjslot_insert puts `new` in front, and adjslot_remove leaves the list without
-- `old`, and each gives a ring whose elements are linked both ways and different.
pub adjslot_list-IsRing :
    (head new old : ℕ) (xs : List ℕ) (r : Ring)
    → IsRing head xs r
    → count new (head ∷ xs) ≡ 0
    → 0 < count old xs
    → (adjslot_tail head r ≡ get_last? xs)
      × IsRing head (new ∷ xs) (adjslot_insert head new r)
      × IsRing head (erase old xs) (adjslot_remove old r)
adjslot_list-IsRing head new old xs r v fresh c = (
  adjslot_tail-IsRing head xs r v,
  adjslot_insert-IsRing head new xs r v fresh,
  adjslot_remove-IsRing head old xs r v c,
)
