-- ===== src/Sparkline.antt =====
-- contrib/webui/sparkline.go: the samples that the web console keeps of each queue. A sample is of any
-- type, with a zero; the drawing is not modelled.
pub mod Window
use chronos_go.Common.{
  ℕ, ◌+◌, ◌-◌, ◌%◌, ◌==◌, ltb, ◌||◌, if◌then◌else◌, Text, eq_text, Bool, true, false, Option, none,
  some, List, [], ◌∷◌, ◌++◌, length, set, take, drop, replicate,
}
use chronos_go.Rdb.Enqueue.{second}

pub record Ring (A : Type 0) : Type 0 where
  pub buf : List A
  pub next : ℕ
  pub full : Bool

module _ {A : Type 0} (zero_sample : A) where
  -- newRing
  unfoldable pub new_ring : ℕ → Ring A
  new_ring size = record { buf = replicate size zero_sample; next = 0; full = false }

module _ {A : Type 0} where
  -- push
  unfoldable pub push : A → Ring A → Ring A
  push v r =
      let next : ℕ = (r.next + 1) % length r.buf in
      record { buf = set r.buf r.next v; next = next; full = r.full || (next == 0) }

  -- values
  unfoldable pub values : Ring A → List A
  values r = if r.full then drop r.next r.buf ++ take r.next r.buf else take r.next r.buf

  unfoldable pub push_all : List A → Ring A → Ring A
  push_all [] r = r
  push_all (v ∷ vs) r = push_all vs (push v r)

-- The maps of a store: the value of a key, and setting it.
unfoldable pub value_at : {B : Type 0} → Text → List (Text × B) → Option B
value_at key [] = none
value_at key ((k, b) ∷ rest) =
    let found = value_at key rest in if eq_text k key then some b else found

unfoldable pub set_at : {B : Type 0} → Text → B → List (Text × B) → List (Text × B)
set_at key b [] = (key, b) ∷ []
set_at key b ((k, c) ∷ rest) =
    let others = set_at key b rest in if eq_text k key then (k, b) ∷ rest else (k, c) ∷ others

-- sparkStore
pub record SparkStore (A : Type 0) : Type 0 where
  pub rings : List (Text × Ring A)
  pub last_push : List (Text × ℕ)
  pub size : ℕ

-- minPushInterval
abbrev pub min_push_interval : ℕ
min_push_interval = second

module _ {A : Type 0} (zero_sample : A) where
  -- The ring of a queue, or a new one
  unfoldable pub ring_of : Text → SparkStore A → Ring A
  unfolding value_at new_ring
  ring_of queue s = elim (value_at queue s.rings) [
    | some r ↦ r
    | none ↦ new_ring zero_sample s.size
  ]

  unfoldable pub store_sample : Text → A → ℕ → SparkStore A → SparkStore A
  unfolding set_at push ring_of
  store_sample queue v now s = record s {
    rings = set_at queue (push v (ring_of queue s)) s.rings;
    last_push = set_at queue now s.last_push;
  }

  -- sparkStore.push, at a time
  unfoldable pub push_sample : Text → A → ℕ → SparkStore A → SparkStore A
  unfolding value_at store_sample
  push_sample queue v now s = elim (value_at queue s.last_push) [
    | some last ↦ if ltb (now - last) min_push_interval then s else store_sample queue v now s
    | none ↦ store_sample queue v now s
  ]
