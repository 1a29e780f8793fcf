-- ===== src/Examples/Store/Cells.antt =====
-- The cells of the example store: what a key holds, the effect of a command on it, and the laws of
-- each type of value. A key holds a hash, a string, a sorted set, a set and a stream side by side, each
-- empty until it is written. EXISTS looks at hashes and sets, the types that the code asks it for.
use chronos_go.Common.{
  ℕ, ◌+◌, ◌-◌, ◌<◌, ◌≡◌, ◌≤◌, ℤ, pos, negsuc, refl, sym, subst, ap, Text, eq_text, eq_text→eq,
  eq_text_refl, Bool, true, false, Bool-cases, ltb, not, ◌||◌, ◌&&◌, if◌then◌else◌, Option, none,
  some, List, [], ◌∷◌, ◌++◌, take, drop, inl, inr, arith,
}
use chronos_go.Task.{TaskMessage}
use chronos_go.ScheduleMeta.{ScheduleMeta}
use chronos_go.Redis.{
  Entry, Write, hset, hdel, del, set_px, set, pexpire, expire, zadd, zrem, sadd, srem, xadd, xack,
  xdel, xreadgroup, xclaim, without, contains_text,
}

pub data Datum : Type 0 where
  message : TaskMessage → Datum
  number : ℕ → Datum
  text : Text → Datum
  schedule : ScheduleMeta → Datum

pub record Held : Type 0 where
  pub value : Text
  pub until : Option ℕ

pub record Cell : Type 0 where
  pub fields : List (Text × Datum)
  pub string : Option Held
  pub scores : List (Text × ℕ)
  pub elements : List Text
  pub fresh : List Entry
  pub pending : List Entry
  pub last : ℕ
  -- when EXPIRE has it deleted
  pub deadline : Option ℕ

abbrev pub empty_cell : Cell
empty_cell = record {
  fields = [];
  string = none;
  scores = [];
  elements = [];
  fresh = [];
  pending = [];
  last = 0;
  deadline = none;
}

unfoldable pub lookup {ℓ} : {A : Type ℓ} → Text → List (Text × A) → Option A
lookup k [] = none
lookup k ((j, a) ∷ l) = let rest = lookup k l in if eq_text j k then some a else rest

unfoldable pub forget {ℓ} : {A : Type ℓ} → Text → List (Text × A) → List (Text × A)
forget k [] = []
forget k ((j, a) ∷ l) = let rest = forget k l in if eq_text j k then rest else (j, a) ∷ rest

unfoldable pub remove : Text → List Text → List Text
remove k [] = []
remove k (j ∷ l) = let rest = remove k l in if eq_text j k then rest else j ∷ rest

unfoldable pub still : ℕ → Option Held → Option Text
still now none = none
still now (some held) = elim held.until [
  | none ↦ some held.value
  | some t ↦ if ltb now t then some held.value else none
]

unfoldable pub prolonged : ℕ → Option Text → Option Held
prolonged until none = none
prolonged until (some x) = some (record { value = x; until = some until })

unfoldable pub prolong : ℕ → ℕ → Option Held → Option Held
unfolding still prolonged
prolong now ttl o = prolonged (now + ttl) (still now o)

unfoldable pub has_any : List (Text × Datum) → List Text → Bool
has_any [] [] = false
has_any [] (x ∷ xs) = true
has_any (f ∷ fs) xs = true

unfoldable pub is_there : Cell → Bool
unfolding has_any
is_there c = has_any c.fields c.elements

-- Whether the deadline of a key that is there has come.
unfoldable pub is_over : ℕ → Option ℕ → Bool
is_over now none = false
is_over now (some t) = not (ltb now t)

unfoldable pub is_lapsed : ℕ → Cell → Bool
unfolding is_there is_over
is_lapsed now c = is_there c && is_over now c.deadline

unfoldable pub apply : ℕ → Write Datum → Cell → Cell
unfolding forget remove prolong is_there
apply now (hset f d) c = record c { fields = (f, d) ∷ c.fields }
apply now (hdel f) c = record c { fields = forget f c.fields }
apply now del c = empty_cell
apply now (set_px x ttl) c = record c {
  string = some (record { value = x; until = some (now + ttl) });
}
apply now (set x) c = record c { string = some (record { value = x; until = none }) }
apply now (pexpire ttl) c = record c { string = prolong now ttl c.string }
apply now (expire ttl) c = record c { deadline = some (now + ttl) }
apply now (zadd s m) c = record c { scores = (m, s) ∷ forget m c.scores }
apply now (zrem m) c = record c { scores = forget m c.scores }
apply now (sadd m) c = record c {
  elements = m ∷ remove m c.elements;
  deadline = if is_there c then c.deadline else none;
}
apply now (srem m) c = record c { elements = remove m c.elements }
apply now (xadd id) c = record c {
  fresh = c.fresh ++ record { stream_id = c.last + 1; task_id = id } ∷ [];
  last = c.last + 1;
}
apply now (xack i) c = record c { pending = without i c.pending }
apply now (xdel i) c = record c { fresh = without i c.fresh }
apply now (xreadgroup n) c = record c {
  fresh = drop n c.fresh;
  pending = c.pending ++ take n c.fresh;
}
apply now (xclaim is) c = c

pub lookup-forget :
    {A : Type 0} (m x : Text) (l : List (Text × A))
    → lookup x (forget m l) ≡ (if eq_text m x then none else lookup x l)
unfolding lookup forget
lookup-forget m x [] = elim (Bool-cases (eq_text m x)) [ inl e ↦ simp e | inr e ↦ simp e ]
lookup-forget m x ((j, s) ∷ l) = elim (Bool-cases (eq_text j m)) [
  | inl same ↦ elim (Bool-cases (eq_text m x)) [
    | inl e ↦ simp (same, lookup-forget m x l, e)
    | inr e ↦ simp (eq_text_refl m, lookup-forget m x l, eq_text→eq j m same, e)
  ]
  | inr other ↦ elim (Bool-cases (eq_text m x)) [
    | inl e ↦
        simp
          (other, lookup-forget m x l, e, subst (λ y. eq_text j y ≡ false) (eq_text→eq m x e) other)
    | inr e ↦ simp (other, lookup-forget m x l, e)
  ]
]

pub contains_text-remove :
    (m x : Text) (l : List Text)
    → contains_text x (remove m l) ≡ (not (eq_text m x) && contains_text x l)
unfolding contains_text remove
contains_text-remove m x [] = elim (Bool-cases (eq_text m x)) [ inl e ↦ simp e | inr e ↦ simp e ]
contains_text-remove m x (j ∷ l) = elim (Bool-cases (eq_text j m)) [
  | inl same ↦ elim (Bool-cases (eq_text m x)) [
    | inl e ↦ simp (same, contains_text-remove m x l, e)
    | inr e ↦ simp (eq_text_refl m, contains_text-remove m x l, eq_text→eq j m same, e)
  ]
  | inr other ↦ elim (Bool-cases (eq_text m x)) [
    | inl e ↦ simp (
      other,
      contains_text-remove m x l,
      e,
      subst (λ y. eq_text j y ≡ false) (eq_text→eq m x e) other,
    )
    | inr e ↦ simp (other, contains_text-remove m x l, e)
  ]
]

pub contains_text-sadd :
    (m x : Text) (l : List Text)
    → (eq_text m x || contains_text x (remove m l)) ≡ (eq_text m x || contains_text x l)
contains_text-sadd m x l = elim (Bool-cases (eq_text m x)) [
  | inl e ↦ simp e
  | inr e ↦ simp (contains_text-remove m x l, e)
]

pub still-prolong :
    (now later ttl : ℕ) (x : Text) (o : Option Held)
    → still now o ≡ some x
    → still later (prolong now ttl o) ≡ (if ltb later (now + ttl) then some x else none)
unfolding still prolong prolonged
still-prolong now later ttl x o held = ap (λ found. still later (prolonged (now + ttl) found)) held

-- What lapses does not come back.
pub still_earlier :
    (now later : ℕ) (x : Text) (o : Option Held)
    → now ≤ later
    → still later o ≡ some x
    → still now o ≡ some x
unfolding still
still_earlier now later x none after held = held
still_earlier now later x (some held_value) after held = by_expiry held_value.until held
  where
    Found : ℕ → Option ℕ → Option Text
    Found now o = elim o [
      | none ↦ some held_value.value
      | some t ↦ if ltb now t then some held_value.value else none
    ]

    by_expiry : (o : Option ℕ) → Found later o ≡ some x → Found now o ≡ some x
    by_expiry none e = e
    by_expiry (some t) e = ground (arith)

-- What is left of the time of a string.
unfoldable pub time_left : ℕ → Option Held → ℤ
time_left now none = negsuc 1
time_left now (some held) = elim held.until [
  | none ↦ negsuc 0
  | some t ↦ if ltb now t then pos (t - now) else negsuc 1
]

pub still-time_left :
    (now later left : ℕ) (x : Text) (o : Option Held)
    → now ≤ later
    → time_left now o ≡ pos left
    → still later o ≡ some x
    → later < now + left
unfolding time_left still
still-time_left now later left x none after timed there = cc
still-time_left now later left x (some held) after timed there = by_expiry held.until timed there
  where
    Timed : Option ℕ → Type 0
    Timed o =
        elim o as (λ _. ℤ) [
          | none ↦ negsuc 0
          | some t ↦ if ltb now t then pos (t - now) else negsuc 1
        ]
        ≡ pos left

    There : Option ℕ → Type 0
    There o =
        elim o as (λ _. Option Text) [
          | none ↦ some held.value
          | some t ↦ if ltb later t then some held.value else none
        ]
        ≡ some x

    by_expiry : (o : Option ℕ) → Timed o → There o → later < now + left
    by_expiry none timed there = cc
    by_expiry (some t) timed there = ground arith

pub has_any-fields :
    (f : Text) (fs : List (Text × Datum)) (xs : List Text)
    → has_any fs xs ≡ false
    → lookup f fs ≡ none
unfolding has_any lookup
has_any-fields f [] xs h = refl
has_any-fields f (x ∷ fs) xs h = cc

pub has_any-elements : (fs : List (Text × Datum)) (xs : List Text) → has_any fs xs ≡ false → xs ≡ []
unfolding has_any
has_any-elements fs [] h = refl
has_any-elements [] (x ∷ xs) h = cc
has_any-elements (f ∷ fs) (x ∷ xs) h = cc

abbrev pub message_of : Datum → Option TaskMessage
message_of (message m) = some m
message_of _ = none

pub decode-encode :
    (m : TaskMessage) (d : Datum) → some (message m) ≡ some d → message_of d ≡ some m
decode-encode m d e =
    ap
      (λ (o : Option Datum). elim o as (λ _. Option TaskMessage) [
        | none ↦ none
        | some x ↦ message_of x
      ])
      (sym e)

pub lookup-zadd :
    (m x : Text) (s : ℕ) (l : List (Text × ℕ))
    → lookup x ((m, s) ∷ forget m l) ≡ (if eq_text m x then some s else lookup x l)
unfolding lookup
lookup-zadd m x s l = elim (Bool-cases (eq_text m x)) [
  | inl e ↦ simp e
  | inr e ↦ simp (e, lookup-forget m x l)
]

pub has_any_sadd :
    (fs : List (Text × Datum)) (x : Text) (xs : List Text) → has_any fs (x ∷ xs) ≡ true
unfolding has_any
has_any_sadd [] x xs = refl
has_any_sadd (f ∷ fs) x xs = refl

abbrev pub keys : {A : Type 0} → List (Text × A) → List Text
keys [] = []
keys ((k, a) ∷ l) = k ∷ keys l

pub lookup-keys :
    {A : Type 0} (f : Text) (a : A) (l : List (Text × A))
    → lookup f l ≡ some a
    → contains_text f (keys l) ≡ true
unfolding lookup contains_text
lookup-keys f a [] h = cc
lookup-keys f a ((j, b) ∷ l) h = elim (Bool-cases (eq_text j f)) [
  | inl same ↦ simp same
  | inr other ↦ simp other (lookup-keys f a l (simp other at h))
]

pub lapsed-not_there : (now : ℕ) (c : Cell) → is_there c ≡ false → is_lapsed now c ≡ false
unfolding is_lapsed
lapsed-not_there now c absent = simp absent

pub lapsed-deadline :
    (now later ttl : ℕ) (c : Cell)
    → is_there c ≡ true
    → is_lapsed later (apply now (expire ttl) c) ≡ not (ltb later (now + ttl))
unfolding is_lapsed is_there is_over apply
lapsed-deadline now later ttl c there = simp there
