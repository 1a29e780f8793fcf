-- ===== src/Sparkline/Window.antt =====
-- A ring of contrib/webui/sparkline.go holds the last samples, oldest first.
use native.Mathlib.Nat.{mod-eq_of_lt, mod_self}
use mathlib.Core.List.{append-nil, append_assoc}
use mathlib.Core.Bool.{or-true, or-false}
use chronos_go.Common.{
  ℕ, zero, suc, ◌+◌, ◌-◌, ◌%◌, ◌<◌, ◌≡◌, ◌==◌, refl, ap, sym, ◌∙◌, subst, ◌||◌, Bool, true, false,
  List, [], ◌∷◌, ◌++◌, length, length-append, set, take, drop, replicate, length-replicate, arith,
}
use chronos_go.Sparkline.{Ring, new_ring, push, values, push_all}

module _ {A : Type 0} where
  set-append : (a b : List A) (y v : A) → set (a ++ y ∷ b) (length a) v ≡ a ++ v ∷ b
  set-append [] b y v = refl
  set-append (x ∷ a) b y v = ap (λ l. x ∷ l) (set-append a b y v)

  take-append : (a b : List A) → take (length a) (a ++ b) ≡ a
  take-append [] b = refl
  take-append (x ∷ a) b = ap (λ l. x ∷ l) (take-append a b)

  drop-append : (a b : List A) → drop (length a) (a ++ b) ≡ b
  drop-append [] b = refl
  drop-append (x ∷ a) b = drop-append a b

  -- The samples pushed so far, against the part of the buffer before the next one and the part from
  -- it on.
  abbrev Held : List A → List A → Bool → List A → Type 0
  Held a b false xs = xs ≡ a
  Held a b true xs = (older : List A) × (xs ≡ older ++ (b ++ a))

  abbrev ring : List A → A → List A → Bool → Ring A
  ring a y b full = record { buf = a ++ y ∷ b; next = length a; full = full }

  -- What the ring is after the samples xs.
  abbrev Holds : ℕ → List A → Ring A → Type 0
  Holds size xs r =
      (a : List A) × (y : A) × (b : List A) × (r ≡ ring a y b r.full)
      × (length r.buf ≡ size)
      × Held a (y ∷ b) r.full xs

  abbrev after_push : Bool → List A → ℕ → Ring A
  after_push full buf next = record { buf = buf; next = next; full = full || (next == 0) }

  push-at :
      (a b : List A) (y v : A) (full : Bool) (k : ℕ)
      → (length a + 1) % length (a ++ y ∷ b) ≡ k
      → push v (ring a y b full) ≡ after_push full (a ++ v ∷ b) k
  unfolding push
  push-at a b y v full k e =
      ap (λ buf. after_push full buf ((length a + 1) % length (a ++ y ∷ b))) (set-append a b y v)
      ∙ ap (after_push full (a ++ v ∷ b)) e

  push-wraps :
      (a : List A) (y v : A) (full : Bool)
      → push v (ring a y [] full) ≡ record { buf = a ++ v ∷ []; next = 0; full = true }
  push-wraps a y v full =
      push-at a [] y v full 0
        (ap (λ n. (length a + 1) % n) (length-append a (y ∷ [])) ∙ mod_self (length a + 1))
      ∙ ap (λ f. record { buf = a ++ v ∷ []; next = 0; full = f }) (or-true full)

  push-inner :
      (a : List A) (y v z : A) (b : List A) (full : Bool)
      → push v (ring a y (z ∷ b) full) ≡ ring (a ++ v ∷ []) z b full
  push-inner a y v z b full =
      push-at a (z ∷ b) y v full (length (a ++ v ∷ [])) (
        mod-eq_of_lt (omega (arith, length-append a (y ∷ z ∷ b)))
        ∙ omega (arith, length-append a (v ∷ [])))
      ∙ ap (λ buf. after_push full buf (length (a ++ v ∷ [])))
          (sym (append_assoc a (v ∷ []) (z ∷ b)))
      ∙ ap (λ f. record { buf = (a ++ v ∷ []) ++ z ∷ b; next = length (a ++ v ∷ []); full = f })
          (ap (λ start. full || start) (ground (arith, length-append a (v ∷ []))) ∙ or-false full)

  -- The buffer is full, from its start.
  Holds-start :
      (size : ℕ) (xs whole : List A)
      → 0 < size
      → length whole ≡ size
      → (older : List A) × (xs ≡ older ++ whole)
      → Holds size xs (record { buf = whole; next = 0; full = true })
  Holds-start size xs [] some_room len held = absurd (omega (arith, len))
  Holds-start size xs (x ∷ whole) some_room len (older, cut) =
      ([], x, whole, refl, len, (older, cut ∙ ap (λ l. older ++ l) (sym (append-nil (x ∷ whole)))))

  wrapped :
      (a xs : List A) (y v : A) (full : Bool)
      → Held a (y ∷ []) full xs
      → (older : List A) × (xs ++ v ∷ [] ≡ older ++ (a ++ v ∷ []))
  wrapped a xs y v false held = ([], ap (λ l. l ++ v ∷ []) held)
  wrapped a xs y v true (older, cut) =
      (older ++ y ∷ [], ap (λ l. l ++ v ∷ []) cut ∙ simp append_assoc)

  moved :
      (a b xs : List A) (y v z : A) (full : Bool)
      → Held a (y ∷ z ∷ b) full xs
      → Held (a ++ v ∷ []) (z ∷ b) full (xs ++ v ∷ [])
  moved a b xs y v z false held = ap (λ l. l ++ v ∷ []) held
  moved a b xs y v z true (older, cut) =
      (older ++ y ∷ [], ap (λ l. l ++ v ∷ []) cut ∙ simp append_assoc)

  push-ring :
      (a b xs : List A) (y v : A) (full : Bool)
      → Held a (y ∷ b) full xs
      → Holds (length (a ++ y ∷ b)) (xs ++ v ∷ []) (push v (ring a y b full))
  push-ring a [] xs y v full held =
      subst (Holds (length (a ++ y ∷ [])) (xs ++ v ∷ [])) (sym (push-wraps a y v full)) (
        Holds-start _ _ (a ++ v ∷ []) (omega (arith, length-append a (y ∷ [])))
          (length-append a (v ∷ []) ∙ sym (length-append a (y ∷ []))) (wrapped a xs y v full held))
  push-ring a (z ∷ b) xs y v full held =
      subst (Holds (length (a ++ y ∷ z ∷ b)) (xs ++ v ∷ [])) (sym (push-inner a y v z b full)) (
        a ++ v ∷ [],
        z,
        b,
        refl,
        omega (
          arith,
          length-append (a ++ v ∷ []) (z ∷ b),
          length-append a (v ∷ []),
          length-append a (y ∷ z ∷ b),
        ),
        moved a b xs y v z full held,
      )

  push-Holds :
      (size : ℕ) (xs : List A) (v : A) (r : Ring A)
      → Holds size xs r
      → Holds size (xs ++ v ∷ []) (push v r)
  push-Holds size xs v r (a, y, b, same, len, held) =
      subst (λ s. Holds size (xs ++ v ∷ []) (push v s)) (sym same)
        (subst (λ n. Holds n (xs ++ v ∷ []) (push v (ring a y b r.full)))
          (ap (λ (s : Ring A). length s.buf) (sym same) ∙ len) (push-ring a b xs y v r.full held))

  push_all-Holds :
      (size : ℕ) (xs vs : List A) (r : Ring A)
      → Holds size xs r
      → Holds size (xs ++ vs) (push_all vs r)
  unfolding push_all
  push_all-Holds size xs [] r held = subst (λ l. Holds size l r) (sym (append-nil xs)) held
  push_all-Holds size xs (v ∷ vs) r held =
      subst (λ l. Holds size l (push_all vs (push v r))) (append_assoc xs (v ∷ []) vs)
        (push_all-Holds size (xs ++ v ∷ []) vs (push v r) (push-Holds size xs v r held))

  last_of :
      (size : ℕ) (a b xs : List A) (y : A) (full : Bool)
      → length (a ++ y ∷ b) ≡ size
      → Held a (y ∷ b) full xs
      → values (ring a y b full) ≡ drop (length xs - size) xs
  unfolding values
  last_of size a b xs y false len held =
      let few : length xs - size ≡ 0 =
        omega (arith, len, ap length held, length-append a (y ∷ b)) in
      take-append a (y ∷ b) ∙ sym held ∙ sym (ap (λ n. drop n xs) few)
  last_of size a b xs y true len (older, cut) =
      let more : length xs - size ≡ length older = omega (
        arith,
        len,
        ap length cut,
        length-append older ((y ∷ b) ++ a),
        length-append (y ∷ b) a,
        length-append a (y ∷ b),
      ) in
      ap (λ l. l ++ take (length a) (a ++ y ∷ b)) (drop-append a (y ∷ b))
      ∙ ap (λ l. (y ∷ b) ++ l) (take-append a (y ∷ b))
      ∙ sym (drop-append older ((y ∷ b) ++ a))
      ∙ ap (drop (length older)) (sym cut)
      ∙ sym (ap (λ n. drop n xs) more)

  Holds-values :
      (size : ℕ) (xs : List A) (r : Ring A)
      → Holds size xs r
      → values r ≡ drop (length xs - size) xs
  Holds-values size xs r (a, y, b, same, len, held) =
      ap values same
      ∙ last_of size a b xs y r.full (ap (λ (s : Ring A). length s.buf) (sym same) ∙ len) held

  -- A new ring of a positive size, after any samples, holds the last of them, as many as the size
  -- or all of them if they are fewer, oldest first.
  pub values-push_all :
      (zero_sample : A) (size : ℕ) (xs : List A)
      → 0 < size
      → values (push_all xs (new_ring zero_sample size)) ≡ drop (length xs - size) xs
  unfolding new_ring
  values-push_all zero_sample zero xs some_room = elim some_room [ ]
  values-push_all zero_sample (suc n) xs some_room = Holds-values (suc n) xs _ (
      push_all-Holds (suc n) [] xs _ (
        [],
        zero_sample,
        replicate n zero_sample,
        refl,
        ap suc (length-replicate n zero_sample),
        refl,
      ))
