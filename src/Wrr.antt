-- ===== src/Wrr.antt =====
-- wrr.go: the smooth weighted round-robin picker of queue names. Weights and the total are natural
-- numbers, since `normalizeWeight` makes them so; the running counters are signed.
mod Scan
pub mod Counters
pub mod Cycle
pub mod Counts
pub mod Fairness
pub mod Bounds
use chronos_go.Common.{
  ℕ, zero, suc, ◌+◌, ◌^◌, ℤ, pos, pos_part, neg_part, ltb_ℤ, ◌+ℤ◌, ◌-ℤ◌, Text, eq_text, Bool, true,
  false, ltb, ◌==◌, ◌&&◌, ◌||◌, if◌then◌else◌, List, [], ◌∷◌, map, length, get_or, set, replicate,
}

abbrev pub max_weight : ℕ
max_weight = 2 ^ 20

-- normalizeWeight
unfoldable pub normalize_weight : ℤ → ℕ
normalize_weight w =
    if ltb_ℤ w (pos 1) then 1 else if ltb_ℤ (pos max_weight) w then max_weight else pos_part w

pub record WrrPicker : Type 0 where
  pub names : List Text
  pub weights : List ℕ
  pub current : List ℤ
  pub total : ℕ

-- A map from queue names to weights as the list of its entries, in the order of iteration.
abbrev pub QueueMap : Type 0
QueueMap = List (Text × ℤ)

-- The value of a key, and the zero value of a missing one.
unfoldable pub weight_of : Text → QueueMap → ℤ
weight_of q [] = pos 0
weight_of q ((k, w) ∷ m) = if eq_text k q then w else weight_of q m

-- The byte order of Go strings.
unfoldable pub text_le : Text → Text → Bool
text_le [] t = true
text_le (x ∷ xs) [] = false
text_le (x ∷ xs) (y ∷ ys) = ltb x y || (x == y && text_le xs ys)

unfoldable pub insert_sorted : Text → List Text → List Text
insert_sorted q [] = q ∷ []
insert_sorted q (x ∷ xs) =
    let rest = insert_sorted q xs in if text_le q x then q ∷ x ∷ xs else x ∷ rest

-- sort.Strings
unfoldable pub sort_strings : List Text → List Text
sort_strings [] = []
sort_strings (x ∷ xs) = insert_sorted x (sort_strings xs)

unfoldable pub sum : List ℕ → ℕ
sum [] = 0
sum (x ∷ xs) = x + sum xs

-- newWRRPicker
unfoldable pub new_wrr_picker : QueueMap → WrrPicker
new_wrr_picker queues =
    let names = sort_strings (map (λ e. e.0) queues) in
    let weights = map (λ q. normalize_weight (weight_of q queues)) names in
    record {
      names = names;
      weights = weights;
      current = replicate (length names) (pos 0);
      total = sum weights;
    }

-- `if p.current[i] > p.current[best] { best = i }`
unfoldable pub better : List ℤ → ℕ → ℕ → ℕ
better current best i =
    if ltb_ℤ (get_or current best (pos 0)) (get_or current i (pos 0)) then i else best

-- `p.current[i] += p.weights[i]`
unfoldable pub raise_at : ℕ → List ℕ → List ℤ → List ℤ
raise_at i weights current = set current i (get_or current i (pos 0) +ℤ pos (get_or weights i 0))

-- The loop of `pick`: raise each counter by its weight, and keep the index of the first highest.
unfoldable pub scan : List Text → ℕ → ℕ → List ℕ → List ℤ → ℕ × List ℤ
scan [] i best weights current = (best, current)
scan (q ∷ names) i best weights current =
    let raised = raise_at i weights current in
    scan names (suc i) (better raised best i) weights raised

-- The index that `pick` selects.
unfoldable pub best_index : WrrPicker → ℕ
best_index p = (scan p.names 0 0 p.weights p.current).0

-- pick
unfoldable pub pick : WrrPicker → Text × WrrPicker
unfolding best_index
pick p = elim p.names [
  | [] ↦ ([], p)
  | q ∷ rest ↦
      let raised = (scan p.names 0 0 p.weights p.current).1 in
      let best = best_index p in
      (
        get_or p.names best [],
        record p { current = set raised best (get_or raised best (pos 0) -ℤ pos p.total) },
      )
]

-- The picks of n rounds, and the picker after them.
unfoldable pub picks : ℕ → WrrPicker → List Text × WrrPicker
picks zero p = ([], p)
picks (suc n) p = let (q, p') = pick p in let (qs, p'') = picks n p' in (q ∷ qs, p'')
