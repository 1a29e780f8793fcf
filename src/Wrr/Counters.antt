-- ===== src/Wrr/Counters.antt =====
-- What `pick` (wrr.go) does to the running counters, against the rounds played and the picks made.
use chronos_go.Common.{
  ℕ, zero, suc, ◌+◌, ◌*◌, ◌<◌, ◌≡◌, refl, ℤ, pos, pos_part, neg_part, ◌-ℤ◌, +ℤ_parts, -ℤ_parts,
  pos_part_mono, neg_part-add_pos, neg_part-sub_lt, List, [], ◌∷◌, length, get_or, set, arith,
  dec_lt,
}
use chronos_go.Wrr.{sum}
use chronos_go.Wrr.Scan.{raise, AllLe}

-- The sums of the positive and of the negative parts.
unfoldable pub pos_sum : List ℤ → ℕ
pos_sum [] = 0
pos_sum (c ∷ cs) = pos_part c + pos_sum cs

unfoldable pub neg_sum : List ℤ → ℕ
neg_sum [] = 0
neg_sum (c ∷ cs) = neg_part c + neg_sum cs

-- After k rounds of a picker with total t: what a counter holds more than zero is k times its weight
-- less t for each time that its queue was picked, and it is above minus t.
abbrev pub Tallied : ℕ → ℕ → List ℤ → List ℕ → List ℕ → Type 0
Tallied k t [] [] [] = Unit {0}
Tallied k t (c ∷ cs) (w ∷ ws) (n ∷ ns) =
    (pos_part c + t * n ≡ k * w + neg_part c) × (neg_part c < t) × Tallied k t cs ws ns
Tallied k t _ _ _ = ⊥

pub Tallied-raise :
    (k t : ℕ) (cs : List ℤ) (ws ns : List ℕ)
    → Tallied k t cs ws ns
    → Tallied (suc k) t (raise ws cs) ws ns
unfolding raise
Tallied-raise k t [] [] [] h = tt
Tallied-raise k t (c ∷ cs) (w ∷ ws) (n ∷ ns) h = (
  omega (arith, +ℤ_parts c (pos w), h.0),
  omega (arith, neg_part-add_pos c w, h.1),
  Tallied-raise k t cs ws ns h.2,
)
Tallied-raise k t _ _ _ h = absurd h

pub Tallied-set :
    (k t b : ℕ) (cs : List ℤ) (ws ns : List ℕ)
    → b < length cs
    → 0 < pos_part (get_or cs b (pos 0))
    → Tallied k t cs ws ns
    → Tallied k t (set cs b (get_or cs b (pos 0) -ℤ pos t)) ws (set ns b (suc (get_or ns b 0)))
Tallied-set k t b [] [] [] i p h = tt
Tallied-set k t zero (c ∷ cs) (w ∷ ws) (n ∷ ns) i p h =
    (omega (arith, -ℤ_parts c (pos t), h.0), neg_part-sub_lt c t p (omega (arith, h.1)), h.2)
Tallied-set k t (suc b) (c ∷ cs) (w ∷ ws) (n ∷ ns) i p h =
    (h.0, h.1, Tallied-set k t b cs ws ns (omega arith) p h.2)
Tallied-set k t b _ _ _ i p h = absurd h

pub sums-raise :
    (ws : List ℕ) (cs : List ℤ)
    → length ws ≡ length cs
    → pos_sum (raise ws cs) + neg_sum cs ≡ neg_sum (raise ws cs) + pos_sum cs + sum ws
unfolding raise pos_sum neg_sum sum
sums-raise [] [] h = refl
sums-raise [] (c ∷ cs) h = absurd (omega arith)
sums-raise (w ∷ ws) [] h = absurd (omega arith)
sums-raise (w ∷ ws) (c ∷ cs) h = omega (arith, +ℤ_parts c (pos w), sums-raise ws cs (omega arith))

pub sums-set :
    (t b : ℕ) (cs : List ℤ)
    → b < length cs
    → let cs' = set cs b (get_or cs b (pos 0) -ℤ pos t) in
      pos_sum cs' + neg_sum cs + t ≡ neg_sum cs' + pos_sum cs
unfolding pos_sum neg_sum
sums-set t b [] h = absurd (omega arith)
sums-set t zero (c ∷ cs) h = omega (arith, -ℤ_parts c (pos t))
sums-set t (suc b) (c ∷ cs) h = omega (arith, sums-set t b cs (omega arith))

pos_sum-of_AllLe : (m : ℤ) (cs : List ℤ) → AllLe m cs → pos_part m ≡ 0 → pos_sum cs ≡ 0
unfolding pos_sum
pos_sum-of_AllLe m [] a e = refl
pos_sum-of_AllLe m (c ∷ cs) a e = omega (arith, pos_sum-of_AllLe m cs a.1 e, pos_part_mono c m a.0)

pub pos_part-of_AllLe : (m : ℤ) (cs : List ℤ) → AllLe m cs → 0 < pos_sum cs → 0 < pos_part m
pos_part-of_AllLe m cs a h = elim (dec_lt 0 (pos_part m)) [
  | yes p ↦ p
  | no z ↦ absurd (omega (arith, pos_sum-of_AllLe m cs a (omega arith)))
]
