-- ===== src/Ypipe/Fifo.antt =====
-- The queue that a ypipe stands for, and that its operations act on it as a queue between a writer
-- and a reader who may be asleep.
use serverlink.Prelude.{
  ℕ, zero, suc, ◌+◌, ◌-◌, ◌≤◌, ◌<◌, ◌≡◌, refl, sym, ap, ◌∙◌, ◌==◌, ltb, true, false, none, some,
  List, [], ◌∷◌, ◌++◌, append-nil, append_assoc, length, take, drop, get_elem?, arith,
  length-append, length-drop, Bool-cases, inl, inr, ◌⊎◌, take-append-drop, take_all, drop_all,
}
use serverlink.Ypipe.{Ypipe, IsValid, write, flush, read, read_cases}

sub-zero : (n : ℕ) → n - 0 ≡ n
sub-zero n = omega arith

suc-sub-suc : (a b : ℕ) → suc b - suc a ≡ b - a
suc-sub-suc a b = omega arith

sub_self : (n : ℕ) → n - n ≡ 0
sub_self n = omega arith

add_one : (n : ℕ) → n + 1 ≡ suc n
add_one n = omega arith

==-true : (a b : ℕ) → (a == b) ≡ true → a ≡ b
==-true a b h = ground arith

ltb-true : (a b : ℕ) → ltb a b ≡ true → a < b
ltb-true a b h = ground arith

le_eq : (a b : ℕ) → a ≤ b → ltb a b ≡ false → a ≡ b
le_eq a b h k = ground arith

module _ {A : Type 0} where
  abbrev slice : ℕ → ℕ → List A → List A
  slice a b xs = take (b - a) (drop a xs)

  -- Flushed and not yet read; complete and not yet flushed; the parts of an unfinished message.
  abbrev pub ready : Ypipe A → List A
  ready y = slice y.front y.w y.items

  abbrev pub complete : Ypipe A → List A
  complete y = slice y.w y.f y.items

  abbrev pub partial : Ypipe A → List A
  partial y = drop y.f y.items

  drop-append : (n : ℕ) (xs ys : List A) → n ≤ length xs → drop n (xs ++ ys) ≡ drop n xs ++ ys
  drop-append zero xs ys h = refl
  drop-append (suc n) [] ys h = absurd (omega arith)
  drop-append (suc n) (x ∷ xs) ys h = drop-append n xs ys (omega arith)

  take-append : (n : ℕ) (xs ys : List A) → n ≤ length xs → take n (xs ++ ys) ≡ take n xs
  take-append zero xs ys h = refl
  take-append (suc n) [] ys h = absurd (omega arith)
  take-append (suc n) (x ∷ xs) ys h = ap (λ l. x ∷ l) (take-append n xs ys (omega arith))

  take-nil : (n : ℕ) → take {A = A} n [] ≡ []
  take-nil zero = refl
  take-nil (suc n) = refl

  slice-append :
      (a b : ℕ) (xs ys : List A) → a ≤ b → b ≤ length xs → slice a b (xs ++ ys) ≡ slice a b xs
  slice-append a b xs ys h k =
      rw (drop-append a xs ys (omega arith))
        (take-append (b - a) (drop a xs) ys (omega (arith, length-drop a xs)))

  -- A part that is not the last of its message joins what is unfinished.
  pub write-parts :
      (v : A) (y : Ypipe A)
      → IsValid y
      → (ready (write v true y) ≡ ready y)
        × (complete (write v true y) ≡ complete y)
        × (partial (write v true y) ≡ partial y ++ v ∷ [])
  unfolding write
  write-parts v y h = (
    slice-append y.front y.w y.items (v ∷ []) h.front-w (omega arith),
    slice-append y.w y.f y.items (v ∷ []) h.w-f h.f-back,
    drop-append y.f y.items (v ∷ []) h.f-back,
  )

  slice-drop :
      (a b : ℕ) (xs : List A) → a ≤ b → b ≤ length xs → slice a b xs ++ drop b xs ≡ drop a xs
  slice-drop zero b xs h k = rw sub-zero (take-append-drop b xs)
  slice-drop (suc a) zero xs h k = absurd (omega arith)
  slice-drop (suc a) (suc b) [] h k = absurd (omega arith)
  slice-drop (suc a) (suc b) (x ∷ xs) h k =
      rw suc-sub-suc (slice-drop a b xs (omega arith) (omega arith))

  take-slice : (b c : ℕ) (xs : List A) → b ≤ c → take b xs ++ slice b c xs ≡ take c xs
  take-slice zero c xs h = rw sub-zero refl
  take-slice (suc b) zero xs h = absurd (omega arith)
  take-slice (suc b) (suc c) [] h = take-nil _
  take-slice (suc b) (suc c) (x ∷ xs) h =
      rw suc-sub-suc (ap (λ l. x ∷ l) (take-slice b c xs (omega arith)))

  slice-slice :
      (a b c : ℕ) (xs : List A) → a ≤ b → b ≤ c → slice a b xs ++ slice b c xs ≡ slice a c xs
  slice-slice zero b c xs h k = rw (sub-zero b, sub-zero c) (take-slice b c xs k)
  slice-slice (suc a) zero c xs h k = absurd (omega arith)
  slice-slice (suc a) (suc b) zero xs h k = absurd (omega arith)
  slice-slice (suc a) (suc b) (suc c) [] h k =
      rw (take-nil (suc b - suc a), take-nil (suc c - suc b), take-nil (suc c - suc a)) refl
  slice-slice (suc a) (suc b) (suc c) (x ∷ xs) h k =
      rw (suc-sub-suc a b, suc-sub-suc b c, suc-sub-suc a c)
        (slice-slice a b c xs (omega arith) (omega arith))

  slice-cons :
      (a b : ℕ) (xs : List A)
      → a < b
      → b ≤ length xs
      → (x : A) × (get_elem? xs a ≡ some x) × (slice a b xs ≡ x ∷ slice (suc a) b xs)
  slice-cons a b [] h k = absurd (omega arith)
  slice-cons a zero (x ∷ xs) h k = absurd (omega arith)
  slice-cons zero (suc b) (x ∷ xs) h k =
      (x, refl, rw (sub-zero (suc b), suc-sub-suc 0 b, sub-zero b) refl)
  slice-cons (suc a) (suc b) (x ∷ xs) h k =
      let (v, e, p) = slice-cons a b xs (omega arith) (omega arith) in
      (v, e, rw (suc-sub-suc a b, suc-sub-suc (suc a) b) p)

  -- The last part of a message makes it complete, with the parts that were written before, behind the
  -- messages that were complete already; nothing becomes readable yet.
  pub write-completes :
      (v : A) (y : Ypipe A)
      → IsValid y
      → (ready (write v false y) ≡ ready y)
        × (complete (write v false y) ≡ complete y ++ (partial y ++ v ∷ []))
        × (partial (write v false y) ≡ [])
  unfolding write
  write-completes v y h = (
    slice-append y.front y.w y.items (v ∷ []) h.front-w (omega arith),
    whole,
    drop_all (length y.items + 1) (y.items ++ v ∷ [])
        (omega (arith, length-append y.items (v ∷ []))),
  )
    where
      fits : length (drop y.w (y.items ++ v ∷ [])) ≤ length y.items + 1 - y.w
      fits = omega (arith, length-append y.items (v ∷ []), length-drop y.w (y.items ++ v ∷ []))

      whole : complete (write v false y) ≡ complete y ++ (partial y ++ v ∷ [])
      whole =
          take_all (length y.items + 1 - y.w) (drop y.w (y.items ++ v ∷ [])) fits
          ∙ drop-append y.w y.items (v ∷ []) (omega arith)
          ∙ ap (λ l. l ++ v ∷ []) (sym (slice-drop y.w y.f y.items h.w-f h.f-back))
          ∙ append_assoc (complete y) (partial y) (v ∷ [])

  slice_self : (a : ℕ) (xs : List A) → slice a a xs ≡ []
  slice_self a xs = rw (sub_self a) refl

  -- A flush makes the complete messages readable, behind those that are so already, and leaves the parts of an unfinished one back.
  pub flush_lem :
      (y : Ypipe A)
      → IsValid y
      → (ready (flush y).1 ≡ ready y ++ complete y)
        × (complete (flush y).1 ≡ [])
        × (partial (flush y).1 ≡ partial y)
  unfolding flush
  flush_lem y h = elim (Bool-cases (y.w == y.f)) [
    | inl e ↦
        let none_complete : complete y ≡ [] =
          rw (sym (==-true y.w y.f e)) (slice_self y.w y.items) in
        rw e (rw none_complete (sym (append-nil (ready y)), refl, refl))
    | inr e ↦
        rw e
          (sym (slice-slice y.front y.w y.f y.items h.front-w h.w-f), slice_self y.f y.items, refl)
  ]

  w_bound : (y : Ypipe A) → IsValid y → y.w ≤ length y.items
  w_bound y h = omega arith

  -- Reading takes the first item that was flushed and not read, and leaves the others in their order;
  -- if there is none it takes nothing.
  pub read_lem :
      (y : Ypipe A)
      → IsValid y
      → ((ready y ≡ []) × ((read y).0 ≡ none) × (ready (read y).1 ≡ []))
        ⊎ ((x : A) × ((read y).0 ≡ some x) × (ready y ≡ x ∷ ready (read y).1))
  read_lem y h =
      let (took, front, w, items) = read_cases y h in
      elim (Bool-cases (ltb y.front y.w)) [
        | inl e ↦
            let (x, at_front, cons) =
              slice-cons y.front y.w y.items (ltb-true y.front y.w e) (w_bound y h) in
            inr (x, rw (took, e) at_front, rw (front, w, items, e, add_one y.front) cons)
        | inr e ↦
            let nothing : ready y ≡ [] =
              rw (le_eq y.front y.w h.front-w e) (slice_self y.w y.items) in
            inl (nothing, rw (took, e) refl, rw (front, w, items, e) nothing)
      ]
