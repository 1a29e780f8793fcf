-- ===== src/Server/Order.antt =====
-- The order of the queues in server.go's queuesByWeight, and the iteration of a Go map.
use mathlib.Core.Path.{fun_ext}
use chronos_go.Common.{
  ℕ, ◌≡◌, inl, inr, refl, ap, ◌∙◌, ◌||◌, Text, eq_text, eq_text_iff, eq_text_sym, true, Bool-cases,
  List, [], ◌∷◌, arith, ℤ,
}
use chronos_go.Wrr.{QueueMap, weight_of, text_le, normalize_weight}
use chronos_go.Wrr.Cycle.{Absent, Distinct}
use chronos_go.Server.Fetch.{
  ranks_before, insert_ranked, sort_ranked, weight_in, queue_names, queues_by_weight,
}

text_le_total : (s t : Text) → (text_le s t || text_le t s) ≡ true
unfolding text_le
text_le_total [] t = refl
text_le_total (x ∷ xs) [] = refl
text_le_total (x ∷ xs) (y ∷ ys) = ground (arith, text_le_total xs ys)

text_le_antisym : (s t : Text) → text_le s t ≡ true → text_le t s ≡ true → s ≡ t
unfolding text_le
text_le_antisym [] [] h k = refl
text_le_antisym [] (y ∷ ys) h k = cc
text_le_antisym (x ∷ xs) [] h k = cc
text_le_antisym (x ∷ xs) (y ∷ ys) h k = ground (arith, text_le_antisym xs ys)

text_le_trans : (s t u : Text) → text_le s t ≡ true → text_le t u ≡ true → text_le s u ≡ true
unfolding text_le
text_le_trans [] t u h k = refl
text_le_trans (x ∷ xs) [] u h k = cc
text_le_trans (x ∷ xs) (y ∷ ys) [] h k = cc
text_le_trans (x ∷ xs) (y ∷ ys) (z ∷ zs) h k = ground (arith, text_le_trans xs ys zs)

module _ (weight : Text → ℕ) where
  ranks_total : (p q : Text) → (ranks_before weight p q || ranks_before weight q p) ≡ true
  unfolding ranks_before
  ranks_total p q = ground (arith, text_le_total p q)

  ranks_antisym :
      (p q : Text) → ranks_before weight p q ≡ true → ranks_before weight q p ≡ true → p ≡ q
  unfolding ranks_before
  ranks_antisym p q h k = ground (arith, text_le_antisym p q)

  ranks_trans :
      (p q s : Text)
      → ranks_before weight p q ≡ true
      → ranks_before weight q s ≡ true
      → ranks_before weight p s ≡ true
  unfolding ranks_before
  ranks_trans p q s h k = ground (arith, text_le_trans p q s)

  -- Insertion does not mind the order of what is inserted.
  insert_comm :
      (p q : Text) (l : List Text)
      → insert_ranked weight p (insert_ranked weight q l)
        ≡ insert_ranked weight q (insert_ranked weight p l)
  unfolding insert_ranked
  insert_comm p q [] = ground (arith, ranks_total p q, ranks_antisym p q)
  insert_comm p q (x ∷ xs) = ground (
    arith,
    ranks_total p q,
    ranks_antisym p q,
    ranks_trans p q x,
    ranks_trans q p x,
    ranks_total p x,
    ranks_total q x,
    insert_comm p q xs,
  )

-- Two orders in which the entries of one Go map may be visited.
pub data SameMap : QueueMap → QueueMap → Type 0 where
  empty : SameMap [] []
  entry : (e : Text × ℤ) {m n : QueueMap} → SameMap m n → SameMap (e ∷ m) (e ∷ n)
  swap : (e f : Text × ℤ) (m : QueueMap) → SameMap (e ∷ f ∷ m) (f ∷ e ∷ m)
  trans : {l m n : QueueMap} → SameMap l m → SameMap m n → SameMap l n

sort_ranked-SameMap :
    (weight : Text → ℕ) {m n : QueueMap}
    → SameMap m n
    → sort_ranked weight (queue_names m) ≡ sort_ranked weight (queue_names n)
unfolding sort_ranked queue_names
sort_ranked-SameMap weight empty = refl
sort_ranked-SameMap weight (entry e same) =
    ap (insert_ranked weight e.0) (sort_ranked-SameMap weight same)
sort_ranked-SameMap weight (swap e f m) =
    insert_comm weight e.0 f.0 (sort_ranked weight (queue_names m))
sort_ranked-SameMap weight (trans first second) =
    sort_ranked-SameMap weight first ∙ sort_ranked-SameMap weight second

Absent-SameMap :
    (x : Text) {m n : QueueMap} → SameMap m n → Absent x (queue_names m) → Absent x (queue_names n)
unfolding queue_names
Absent-SameMap x empty a = a
Absent-SameMap x (entry e same) a = (a.0, Absent-SameMap x same a.1)
Absent-SameMap x (swap e f m) a = (a.1.0, (a.0, a.1.1))
Absent-SameMap x (trans first second) a = Absent-SameMap x second (Absent-SameMap x first a)

Distinct-SameMap :
    {m n : QueueMap} → SameMap m n → Distinct (queue_names m) → Distinct (queue_names n)
unfolding queue_names
Distinct-SameMap empty d = d
Distinct-SameMap (entry e same) d = (Absent-SameMap e.0 same d.0, Distinct-SameMap same d.1)
Distinct-SameMap (swap e f m) d = ((eq_text_sym e.0 f.0 ∙ d.0.0, d.1.0), (d.0.1, d.1.1))
Distinct-SameMap (trans first second) d = Distinct-SameMap second (Distinct-SameMap first d)

weight_of-SameMap :
    (q : Text) {m n : QueueMap}
    → SameMap m n
    → Distinct (queue_names m)
    → weight_of q m ≡ weight_of q n
unfolding weight_of queue_names
weight_of-SameMap q empty d = refl
weight_of-SameMap q (entry e same) d = elim (Bool-cases (eq_text e.0 q)) [
  | inl here ↦ simp here
  | inr further ↦ simp (further, weight_of-SameMap q same d.1)
]
weight_of-SameMap q (swap e f m) d =
    ground (arith, d.0.0, eq_text_iff e.0 q, eq_text_iff f.0 q, eq_text_iff f.0 e.0)
weight_of-SameMap q (trans first second) d =
    weight_of-SameMap q first d ∙ weight_of-SameMap q second (Distinct-SameMap first d)

-- For a map of queues with distinct names, queuesByWeight returns the same order whichever way
-- the map's entries are iterated.
pub queues_by_weight-SameMap :
    (m n : QueueMap)
    → SameMap m n
    → Distinct (queue_names m)
    → queues_by_weight m ≡ queues_by_weight n
unfolding queues_by_weight
queues_by_weight-SameMap m n same d =
    ap (λ weight. sort_ranked weight (queue_names m))
      (fun_ext (λ q. ap normalize_weight (weight_of-SameMap q same d)))
    ∙ sort_ranked-SameMap (weight_in n) same
