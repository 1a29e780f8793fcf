-- ===== src/Wrr/Cycle.antt =====
-- The picks of `wrrPicker` (wrr.go) over a whole cycle of `total` rounds.
use chronos_go.Common.{
  ℕ, zero, suc, ◌+◌, ◌<◌, ◌≡◌, refl, sym, ap, ◌∙◌, ℤ, pos, pos_part, ◌-ℤ◌, Text, eq_text,
  eq_text_refl, eq_text_sym, false, if◌then◌else◌, List, [], ◌∷◌, length, length-set, get_or, set,
  arith,
}
use native.Mathlib.Nat.{zero-add}
use chronos_go.Wrr.{WrrPicker, sum, scan, best_index, pick, picks}
use chronos_go.Wrr.Scan.{raise, length-raise, scan_raises, IsBest}
use chronos_go.Wrr.Counters.{
  pos_sum, neg_sum, Tallied, Tallied-raise, Tallied-set, sums-raise, sums-set, pos_part-of_AllLe,
}

-- No two entries are equal.
abbrev pub Absent : Text → List Text → Type 0
Absent q [] = Unit {0}
Absent q (x ∷ xs) = (eq_text x q ≡ false) × Absent q xs

abbrev pub Distinct : List Text → Type 0
Distinct [] = Unit {0}
Distinct (x ∷ xs) = Absent x xs × Distinct xs

-- One more pick of q in the counts that stand beside the names.
unfoldable pub bump : List Text → Text → List ℕ → List ℕ
bump [] q ns = ns
bump (m ∷ ms) q [] = []
bump (m ∷ ms) q (n ∷ ns) = (if eq_text m q then suc n else n) ∷ bump ms q ns

unfoldable pub tally : List Text → List ℕ → List Text → List ℕ
tally names ns [] = ns
tally names ns (q ∷ qs) = tally names (bump names q ns) qs

-- How often q stands in a list.
unfoldable pub times : Text → List Text → ℕ
times q [] = 0
times q (x ∷ xs) = (if eq_text q x then 1 else 0) + times q xs

bump-Absent : (names : List Text) (q : Text) (ns : List ℕ) → Absent q names → bump names q ns ≡ ns
unfolding bump
bump-Absent [] q ns h = refl
bump-Absent (m ∷ ms) q [] h = refl
bump-Absent (m ∷ ms) q (n ∷ ns) h = rw (h.0, bump-Absent ms q ns h.1)

Absent-get_or :
    (x : Text) (xs : List Text) (b : ℕ)
    → Absent x xs
    → b < length xs
    → eq_text (get_or xs b []) x ≡ false
Absent-get_or x [] b h i = elim i [ ]
Absent-get_or x (y ∷ ys) zero h i = h.0
Absent-get_or x (y ∷ ys) (suc b) h i = Absent-get_or x ys b h.1 (omega arith)

bump_index :
    (names : List Text) (ns : List ℕ) (b : ℕ)
    → Distinct names
    → length ns ≡ length names
    → b < length names
    → bump names (get_or names b []) ns ≡ set ns b (suc (get_or ns b 0))
unfolding bump
bump_index [] ns b d e i = elim i [ ]
bump_index (m ∷ ms) [] b d e i = absurd (omega arith)
bump_index (m ∷ ms) (n ∷ ns) zero d e i = rw (eq_text_refl m, bump-Absent ms m ns d.0)
bump_index (m ∷ ms) (n ∷ ns) (suc b) d e i =
    rw (eq_text_sym m (get_or ms b []), Absent-get_or m ms b d.0 (omega arith))
      (ap (◌∷◌ n) (bump_index ms ns b d.1 (omega arith) (omega arith)))

suc_add_comm : (n k : ℕ) → suc n + k ≡ n + suc k
suc_add_comm n k = omega arith

-- A picker after k rounds in which the queues were picked ns times.
pub record IsRunning (k : ℕ) (p : WrrPicker) (ns : List ℕ) : Type 0 where
  pub distinct : Distinct p.names
  pub nonempty : 0 < length p.names
  pub positive : 0 < p.total
  pub total_eq : p.total ≡ sum p.weights
  pub weights_length : length p.weights ≡ length p.names
  pub current_length : length p.current ≡ length p.names
  pub counts_length : length ns ≡ length p.names
  pub balanced : pos_sum p.current ≡ neg_sum p.current
  pub tallied : Tallied k p.total p.current p.weights ns

abbrev raised : WrrPicker → List ℤ
raised p = (scan p.names 0 0 p.weights p.current).1

pick_lem :
    (p : WrrPicker)
    → 0 < length p.names
    → pick p ≡ (
      get_or p.names (best_index p) [],
      record p {
        current =
            set (raised p) (best_index p) (get_or (raised p) (best_index p) (pos 0) -ℤ pos p.total);
      },
    )
unfolding pick
pick_lem p h = ground arith

module _ {k : ℕ} {p : WrrPicker} {ns : List ℕ} (v : IsRunning k p ns) where
  best_index-IsBest :
      (raised p ≡ raise p.weights p.current) × IsBest (raise p.weights p.current) (best_index p)
  unfolding best_index
  best_index-IsBest =
      scan_raises p.names p.weights p.current (omega (arith, v.weights_length, v.current_length))
        (sym v.current_length) (omega (arith, v.nonempty, v.current_length))

  raised_sum : pos_sum (raise p.weights p.current) ≡ neg_sum (raise p.weights p.current) + p.total
  raised_sum = omega (
    arith,
    sums-raise p.weights p.current (omega (arith, v.weights_length, v.current_length)),
    v.balanced,
    v.total_eq,
  )

  best_positive : 0 < pos_part (get_or (raise p.weights p.current) (best_index p) (pos 0))
  best_positive =
      pos_part-of_AllLe _ (raise p.weights p.current) best_index-IsBest.1.highest
        (omega (arith, raised_sum, v.positive))

  best_inside : best_index p < length p.names
  best_inside = omega (
    arith,
    best_index-IsBest.1.inside,
    length-raise p.weights p.current (omega (arith, v.weights_length, v.current_length)),
    v.current_length,
  )

  pub IsRunning-pick : IsRunning (suc k) (pick p).1 (bump p.names (pick p).0 ns)
  IsRunning-pick =
      rw
        (
          pick_lem p v.nonempty,
          best_index-IsBest.0,
          bump_index p.names ns (best_index p) v.distinct v.counts_length best_inside,
        )
        (record {
          distinct = v.distinct;
          nonempty = v.nonempty;
          positive = v.positive;
          total_eq = v.total_eq;
          weights_length = v.weights_length;
          current_length = rw length-set (
              omega (
                arith,
                length-raise p.weights p.current
                    (omega (arith, v.weights_length, v.current_length)),
                v.current_length,
              ));
          counts_length = rw length-set v.counts_length;
          balanced = omega (
            arith,
            sums-set p.total (best_index p) (raise p.weights p.current) best_index-IsBest.1.inside,
            raised_sum,
          );
          tallied =
              Tallied-set (suc k) p.total (best_index p) (raise p.weights p.current) p.weights ns
                best_index-IsBest.1.inside best_positive
                (Tallied-raise k p.total p.current p.weights ns v.tallied);
        })

  -- The picked name is one of the picker's.
  pub names-pick : (pick p).1.names ≡ p.names
  names-pick = rw (pick_lem p v.nonempty)

  pub total-pick : (pick p).1.total ≡ p.total
  total-pick = rw (pick_lem p v.nonempty)

  pub weights-pick : (pick p).1.weights ≡ p.weights
  weights-pick = rw (pick_lem p v.nonempty)

pub IsRunning-picks :
    (n k : ℕ) (p : WrrPicker) (ns : List ℕ)
    → IsRunning k p ns
    → IsRunning (n + k) (picks n p).1 (tally p.names ns (picks n p).0)
unfolding picks tally
IsRunning-picks zero k p ns v = rw zero-add v
IsRunning-picks (suc n) k p ns v =
    rw (suc_add_comm n k)
      (rw (names-pick v) at (IsRunning-picks n (suc k) (pick p).1 _ (IsRunning-pick v)))

pub names-picks :
    (n k : ℕ) (p : WrrPicker) (ns : List ℕ)
    → IsRunning k p ns
    → ((picks n p).1.names ≡ p.names)
      × ((picks n p).1.weights ≡ p.weights)
      × ((picks n p).1.total ≡ p.total)
unfolding picks
names-picks zero k p ns v = (refl, refl, refl)
names-picks (suc n) k p ns v =
    let ih = names-picks n (suc k) (pick p).1 _ (IsRunning-pick v) in
    (ih.0 ∙ names-pick v, ih.1 ∙ weights-pick v, ih.2 ∙ total-pick v)
