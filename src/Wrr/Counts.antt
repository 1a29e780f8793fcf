-- ===== src/Wrr/Counts.antt =====
-- Counting the picks of `wrrPicker` (wrr.go) by queue name, and what sorting keeps of the names.
use chronos_go.Common.{
  ℕ, suc, ◌+◌, ◌≡◌, refl, ap, Text, eq_text, eq_text→eq, eq_text_sym, Bool, true, false, ◌||◌,
  if◌then◌else◌, Bool-cases, inl, inr, List, [], ◌∷◌, map, length, replicate, arith,
}
use chronos_go.Wrr.{insert_sorted, sort_strings}
use chronos_go.Wrr.Cycle.{Absent, Distinct, bump, tally, times}

unfoldable pub contains : Text → List Text → Bool
contains q [] = false
contains q (x ∷ xs) = eq_text x q || contains q xs

-- The count beside a name.
unfoldable pub count_at : List Text → List ℕ → Text → ℕ
count_at [] ns q = 0
count_at (m ∷ ms) [] q = 0
count_at (m ∷ ms) (n ∷ ns) q = if eq_text m q then n else count_at ms ns q

count_at-bump :
    (names : List Text) (ns : List ℕ) (x q : Text)
    → length ns ≡ length names
    → contains q names ≡ true
    → count_at names (bump names x ns) q ≡ (if eq_text q x then 1 else 0) + count_at names ns q
unfolding count_at bump contains
count_at-bump [] ns x q e h = cc
count_at-bump (m ∷ ms) [] x q e h = absurd (omega arith)
count_at-bump (m ∷ ms) (n ∷ ns) x q e h = elim (Bool-cases (eq_text m q)) [
  | inl hit ↦ rw (hit, eq_text→eq m q hit) (ground arith)
  | inr miss ↦ rw miss (count_at-bump ms ns x q (omega arith) (rw miss at h))
]

length-bump :
    (names : List Text) (x : Text) (ns : List ℕ)
    → length ns ≡ length names
    → length (bump names x ns) ≡ length names
unfolding bump
length-bump [] x ns e = e
length-bump (m ∷ ms) x [] e = e
length-bump (m ∷ ms) x (n ∷ ns) e = ap suc (length-bump ms x ns (omega arith))

pub count_at-tally :
    (names : List Text) (ns : List ℕ) (qs : List Text) (q : Text)
    → length ns ≡ length names
    → contains q names ≡ true
    → count_at names (tally names ns qs) q ≡ times q qs + count_at names ns q
unfolding tally times
count_at-tally names ns [] q e h = omega arith
count_at-tally names ns (x ∷ qs) q e h = omega (
  arith,
  count_at-tally names (bump names x ns) qs q (length-bump names x ns e) h,
  count_at-bump names ns x q e h,
)

pub count_at-replicate :
    (names : List Text) (q : Text) → count_at names (replicate (length names) 0) q ≡ 0
unfolding count_at
count_at-replicate [] q = refl
count_at-replicate (m ∷ ms) q = ground (arith, count_at-replicate ms q)

pub count_at-map :
    (names : List Text) (f : Text → ℕ) (q : Text)
    → contains q names ≡ true
    → count_at names (map f names) q ≡ f q
unfolding count_at contains
count_at-map [] f q h = cc
count_at-map (m ∷ ms) f q h = elim (Bool-cases (eq_text m q)) [
  | inl hit ↦ rw hit (ap f (eq_text→eq m q hit))
  | inr miss ↦ rw miss (count_at-map ms f q (rw miss at h))
]

-- What sorting keeps.
contains-insert_sorted :
    (q x : Text) (xs : List Text) → contains q (insert_sorted x xs) ≡ (eq_text x q || contains q xs)
unfolding contains insert_sorted
contains-insert_sorted q x [] = refl
contains-insert_sorted q x (y ∷ ys) = ground (arith, contains-insert_sorted q x ys)

pub contains-sort_strings :
    (q : Text) (xs : List Text) → contains q (sort_strings xs) ≡ contains q xs
unfolding contains sort_strings
contains-sort_strings q [] = refl
contains-sort_strings q (x ∷ xs) =
    rw (contains-insert_sorted q x (sort_strings xs), contains-sort_strings q xs)

Absent-insert_sorted :
    (q x : Text) (xs : List Text)
    → eq_text x q ≡ false
    → Absent q xs
    → Absent q (insert_sorted x xs)
unfolding insert_sorted
Absent-insert_sorted q x [] h a = (h, tt)
Absent-insert_sorted q x (y ∷ ys) h a = ground (arith, Absent-insert_sorted q x ys h a.1)

Absent-sort_strings : (q : Text) (xs : List Text) → Absent q xs → Absent q (sort_strings xs)
unfolding sort_strings
Absent-sort_strings q [] a = tt
Absent-sort_strings q (x ∷ xs) a =
    Absent-insert_sorted q x (sort_strings xs) a.0 (Absent-sort_strings q xs a.1)

Distinct-insert_sorted :
    (x : Text) (xs : List Text) → Absent x xs → Distinct xs → Distinct (insert_sorted x xs)
unfolding insert_sorted
Distinct-insert_sorted x [] a d = (tt, tt)
Distinct-insert_sorted x (y ∷ ys) a d = ground (
  arith,
  Distinct-insert_sorted x ys a.1 d.1,
  Absent-insert_sorted y x ys (rw (eq_text_sym x y) a.0) d.0,
)

pub Distinct-sort_strings : (xs : List Text) → Distinct xs → Distinct (sort_strings xs)
unfolding sort_strings
Distinct-sort_strings [] d = tt
Distinct-sort_strings (x ∷ xs) d =
    Distinct-insert_sorted x (sort_strings xs) (Absent-sort_strings x xs d.0)
      (Distinct-sort_strings xs d.1)

length-insert_sorted : (x : Text) (xs : List Text) → length (insert_sorted x xs) ≡ suc (length xs)
unfolding insert_sorted
length-insert_sorted x [] = refl
length-insert_sorted x (y ∷ ys) = ground (arith, length-insert_sorted x ys)

pub length-sort_strings : (xs : List Text) → length (sort_strings xs) ≡ length xs
unfolding sort_strings
length-sort_strings [] = refl
length-sort_strings (x ∷ xs) =
    omega (arith, length-insert_sorted x (sort_strings xs), length-sort_strings xs)
