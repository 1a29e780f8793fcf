-- ===== src/Rdb/Due.antt =====
-- The tasks of a sorted set whose time has come, as forward.go and janitor.go read them.
use chronos_go.Common.{
  ℕ, zero, suc, ◌≡◌, ◌≤◌, refl, ap, sym, ◌∙◌, Text, eq_text, eq_text→eq, true, Bool-cases, ◌&&◌,
  inl, inr, List, [], ◌∷◌, take, length, arith,
}
use mathlib.Core.Bool.{and-false}
use chronos_go.Redis.{Redis, contains_text}
use chronos_go.Rdb.Scripts.{is_due, keep_due}

pub take-member :
    (x : Text) (n : ℕ) (l : List Text)
    → contains_text x (take n l) ≡ true
    → contains_text x l ≡ true
unfolding contains_text
take-member x zero l h = cc
take-member x (suc n) [] h = h
take-member x (suc n) (y ∷ l) h = elim (Bool-cases (eq_text y x)) [
  | inl e ↦ simp e
  | inr e ↦ simp e (take-member x n l (simp e at h))
]

pub take_all : (n : ℕ) (l : List Text) → length l ≤ n → take n l ≡ l
take_all zero [] few = refl
take_all zero (y ∷ l) few = absurd (omega arith)
take_all (suc n) [] few = refl
take_all (suc n) (y ∷ l) few = ap (λ rest. y ∷ rest) (take_all n l (omega arith))

module _ (r : Redis) (cutoff : ℕ) (v : r.Value) where
  pub member-keep_due :
      (x : Text) (l : List Text)
      → contains_text x (keep_due r cutoff v l)
        ≡ (contains_text x l && is_due r cutoff (r.zscore v x))
  unfolding keep_due contains_text
  member-keep_due x [] = refl
  member-keep_due x (y ∷ l) = elim (Bool-cases (is_due r cutoff (r.zscore v y))) [
    | inl due ↦ elim (Bool-cases (eq_text y x)) [
      | inl e ↦
          simp (due, e)
            (sym (ap (λ z. is_due r cutoff (r.zscore v z)) (sym (eq_text→eq y x e)) ∙ due))
      | inr e ↦ simp (due, e) (member-keep_due x l)
    ]
    | inr early ↦ elim (Bool-cases (eq_text y x)) [
      | inl e ↦
          let early_x = ap (λ z. is_due r cutoff (r.zscore v z)) (sym (eq_text→eq y x e)) ∙ early in
          simp (early, e) (member-keep_due x l ∙ simp early_x (and-false (contains_text x l)))
      | inr e ↦ simp (early, e) (member-keep_due x l)
    ]
  ]
