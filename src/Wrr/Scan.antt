-- ===== src/Wrr/Scan.antt =====
-- The loop of `pick` (wrr.go) against its meaning.
use chronos_go.Common.{
  ℕ, suc, ◌<◌, ◌≡◌, refl, ap, ℤ, pos, ltb_ℤ, ◌≤ℤ◌, ◌+ℤ◌, Text, Bool-cases, inl, inr, List, [], ◌∷◌,
  ◌++◌, length, get_or, set, arith, length-append, zero,
}
use mathlib.Core.List.{append-nil}
use chronos_go.Wrr.{scan, better, raise_at}

-- Every counter plus its weight.
unfoldable pub raise : List ℕ → List ℤ → List ℤ
raise [] cs = []
raise (w ∷ ws) [] = []
raise (w ∷ ws) (c ∷ cs) = (c +ℤ pos w) ∷ raise ws cs

pub length-raise :
    (ws : List ℕ) (cs : List ℤ) → length ws ≡ length cs → length (raise ws cs) ≡ length cs
unfolding raise
length-raise [] [] h = refl
length-raise [] (c ∷ cs) h = ground arith
length-raise (w ∷ ws) [] h = ground arith
length-raise (w ∷ ws) (c ∷ cs) h = ap suc (length-raise ws cs (omega arith))

abbrev pub AllLe : ℤ → List ℤ → Type 0
AllLe m [] = Unit {0}
AllLe m (x ∷ xs) = (x ≤ℤ m) × AllLe m xs

AllLe-trans : (m n : ℤ) (xs : List ℤ) → m ≤ℤ n → AllLe m xs → AllLe n xs
AllLe-trans m n [] h a = tt
AllLe-trans m n (x ∷ xs) h a = (omega arith, AllLe-trans m n xs h a.1)

AllLe-append : (m : ℤ) (xs ys : List ℤ) → AllLe m xs → AllLe m ys → AllLe m (xs ++ ys)
AllLe-append m [] ys a b = b
AllLe-append m (x ∷ xs) ys a b = (a.0, AllLe-append m xs ys a.1 b)

-- Reading and writing at the seam of two lists.
module _ {ℓ} {A : Type ℓ} where
  pub get_or-append :
      (xs : List A) (y : A) (ys : List A) (d : A) → get_or (xs ++ y ∷ ys) (length xs) d ≡ y
  get_or-append [] y ys d = refl
  get_or-append (x ∷ xs) y ys d = get_or-append xs y ys d

  pub set-append :
      (xs : List A) (y v : A) (ys : List A) → set (xs ++ y ∷ ys) (length xs) v ≡ xs ++ v ∷ ys
  set-append [] y v ys = refl
  set-append (x ∷ xs) y v ys = ap (◌∷◌ x) (set-append xs y v ys)

  pub get_or-append_left :
      (xs ys : List A) (i : ℕ) (d : A) → i < length xs → get_or (xs ++ ys) i d ≡ get_or xs i d
  get_or-append_left [] ys i d h = elim h [ ]
  get_or-append_left (x ∷ xs) ys zero d h = refl
  get_or-append_left (x ∷ xs) ys (suc i) d h = get_or-append_left xs ys i d (omega arith)

  pub snoc_append : (xs : List A) (y : A) (ys : List A) → (xs ++ y ∷ []) ++ ys ≡ xs ++ y ∷ ys
  snoc_append [] y ys = refl
  snoc_append (x ∷ xs) y ys = ap (◌∷◌ x) (snoc_append xs y ys)

-- What the loop has found: an index within bounds that no counter passes.
pub record IsBest (xs : List ℤ) (b : ℕ) : Type 0 where
  pub inside : b < length xs
  pub highest : AllLe (get_or xs b (pos 0)) xs

-- One turn of the loop: the new counter is the best if it is higher.
IsBest-snoc :
    (xs : List ℤ) (y : ℤ) (b : ℕ)
    → IsBest xs b
    → IsBest (xs ++ y ∷ []) (better (xs ++ y ∷ []) b (length xs))
unfolding better
IsBest-snoc xs y b h =
    rw (get_or-append_left xs (y ∷ []) b (pos 0) h.inside, get_or-append xs y [] (pos 0))
      (elim (Bool-cases (ltb_ℤ (get_or xs b (pos 0)) y)) [
        | inl e ↦ rw e (record {
          inside = omega (arith, length-append xs (y ∷ []));
          highest = rw (get_or-append xs y [] (pos 0)) (
              AllLe-append y xs (y ∷ [])
                (AllLe-trans (get_or xs b (pos 0)) y xs (ground arith) h.highest)
                (omega arith, tt));
        })
        | inr e ↦ rw e (record {
          inside = omega (arith, length-append xs (y ∷ []), h.inside);
          highest =
              rw (get_or-append_left xs (y ∷ []) b (pos 0) h.inside)
                (AllLe-append (get_or xs b (pos 0)) xs (y ∷ []) h.highest (ground arith, tt));
        })
      ])

better-seam :
    (xs : List ℤ) (y : ℤ) (ys : List ℤ) (b : ℕ)
    → b < length xs
    → better (xs ++ y ∷ ys) b (length xs) ≡ better (xs ++ y ∷ []) b (length xs)
unfolding better
better-seam xs y ys b h = rw (
  get_or-append xs y ys (pos 0),
  get_or-append xs y [] (pos 0),
  get_or-append_left xs (y ∷ ys) b (pos 0) h,
  get_or-append_left xs (y ∷ []) b (pos 0) h,
)

better_self : (xs : List ℤ) (i : ℕ) → better xs i i ≡ i
unfolding better
better_self xs i = ground arith

length-snoc {ℓ} : {A : Type ℓ} (xs : List A) (y : A) → length (xs ++ y ∷ []) ≡ suc (length xs)
length-snoc xs y = omega (arith, length-append xs (y ∷ []))

raise_at-seam :
    (wpre : List ℕ) (w : ℕ) (ws : List ℕ) (pre : List ℤ) (c : ℤ) (cs : List ℤ)
    → length wpre ≡ length pre
    → raise_at (length pre) (wpre ++ w ∷ ws) (pre ++ c ∷ cs) ≡ pre ++ (c +ℤ pos w) ∷ cs
unfolding raise_at
raise_at-seam wpre w ws pre c cs e =
    let here : get_or (wpre ++ w ∷ ws) (length pre) 0 ≡ w = rw (← e) (get_or-append wpre w ws 0) in
    rw (here, get_or-append pre c cs (pos 0), set-append pre c (c +ℤ pos w) cs)

-- From the entries done on, the loop raises the rest and ends with the best of all.
pub scan_lem :
    (names : List Text) (wpre ws : List ℕ) (pre cs : List ℤ) (b : ℕ)
    → length wpre ≡ length pre
    → length ws ≡ length cs
    → length names ≡ length cs
    → IsBest pre b
    → ((scan names (length pre) b (wpre ++ ws) (pre ++ cs)).1 ≡ pre ++ raise ws cs)
      × IsBest (pre ++ raise ws cs) (scan names (length pre) b (wpre ++ ws) (pre ++ cs)).0
unfolding scan raise
scan_lem [] wpre [] pre [] b e f g h = (refl, rw append-nil h)
scan_lem [] wpre (w ∷ ws) pre [] b e f g h = absurd (omega arith)
scan_lem [] wpre ws pre (c ∷ cs) b e f g h = absurd (omega arith)
scan_lem (q ∷ names) wpre ws pre [] b e f g h = absurd (omega arith)
scan_lem (q ∷ names) wpre [] pre (c ∷ cs) b e f g h = absurd (omega arith)
scan_lem (q ∷ names) wpre (w ∷ ws) pre (c ∷ cs) b e f g h =
    let ih =
      scan_lem names (wpre ++ w ∷ []) ws (pre ++ y ∷ []) cs (better (pre ++ y ∷ []) b (length pre))
        (omega (arith, length-append wpre (w ∷ []), length-append pre (y ∷ []))) (omega arith)
        (omega arith) (IsBest-snoc pre y b h) in
    rw (scan, raise_at-seam wpre w ws pre c cs e, better-seam pre y cs b h.inside)
      (rw
        (
          snoc_append wpre w ws,
          snoc_append pre y cs,
          snoc_append pre y (raise ws cs),
          length-snoc pre y,
        )
        at ih)
  where
    y : ℤ
    y = c +ℤ pos w

-- The whole loop, from the first entry.
pub scan_raises :
    (names : List Text) (ws : List ℕ) (cs : List ℤ)
    → length ws ≡ length cs
    → length names ≡ length cs
    → 0 < length cs
    → ((scan names 0 0 ws cs).1 ≡ raise ws cs) × IsBest (raise ws cs) (scan names 0 0 ws cs).0
unfolding scan raise
scan_raises names ws [] f g p = absurd (omega arith)
scan_raises [] ws (c ∷ cs) f g p = absurd (omega arith)
scan_raises (q ∷ names) [] (c ∷ cs) f g p = absurd (omega arith)
scan_raises (q ∷ names) (w ∷ ws) (c ∷ cs) f g p =
    rw (scan, raise_at-seam [] w ws [] c cs refl, better_self ((c +ℤ pos w) ∷ cs) 0)
      (scan_lem names (w ∷ []) ws ((c +ℤ pos w) ∷ []) cs 0 refl (omega arith) (omega arith)
        (record { inside = omega arith; highest = (omega arith, tt) }))
