-- ===== src/World.antt =====
-- The state that the Go code works on: the database, the clock, what the RDB caches, and what will
-- become of the calls to Redis. A call may be answered, refused before it has an effect, or answered
-- by an error after it had its effect (a lost reply).
use chronos_go.Common.{ℕ, ◌+◌, Text, List, [], ◌∷◌}
use chronos_go.Redis.{Redis}
use chronos_go.Refusal.{Refusal}

pub data Fault : Type 0 where
  answered refused lost : Fault

-- What becomes of one call, and the nanoseconds it takes.
pub record Turn : Type 0 where
  pub fault : Fault
  pub elapsed : ℕ

pub data Failure : Type 0 where
  redis_failed redis_nil no_task duplicate_task not_encodable bad_body : Failure
  invalid : Text → Failure
  -- ErrInvalidState, and ErrTaskNotFound with the id and the queue
  invalid_state : Text → Failure
  task_not_found : Text → Text → Failure
  refused_by_builder : Refusal → Failure

pub data Result {ℓ} (A : Type ℓ) : Type ℓ where
  ok : A → Result A
  err : Failure → Result A

pub record World (r : Redis) : Type 0 where
  pub db : r.Db
  pub clock : ℕ
  -- RDB.knownQueues
  pub known : List Text
  pub turns : List Turn

-- Stateful code that may return an error.
abbrev pub M : Redis → Type 0 → Type 0
M r A = World r → Result A × World r

unfoldable pub first_turn : List Turn → Turn
first_turn [] = record { fault = answered; elapsed = 0 }
first_turn (t ∷ ts) = t

unfoldable pub later_turns : List Turn → List Turn
later_turns [] = []
later_turns (t ∷ ts) = ts

module _ {r : Redis} where
  abbrev pub pure : {A : Type 0} → A → M r A
  pure a w = (ok a, w)

  abbrev pub raise : {A : Type 0} → Failure → M r A
  raise e w = (err e, w)

  abbrev pub continue : {A B : Type 0} → Result A → (A → M r B) → M r B
  continue (ok a) f w = f a w
  continue (err e) f w = (err e, w)

  infixl 10 ◌>>=◌ ◌>>◌
  abbrev pub ◌>>=◌ : {A B : Type 0} → M r A → (A → M r B) → M r B
  ◌>>=◌ m f w = let (a, w') = m w in continue a f w'

  abbrev pub ◌>>◌ : {A B : Type 0} → M r A → M r B → M r B
  m >> n = m >>= λ _. n

  -- if err := m; err is looked at by the rest
  abbrev pub attempt : {A B : Type 0} → M r A → (Result A → M r B) → M r B
  attempt m f w = let (a, w') = m w in f a w'

  -- time.Now()
  abbrev pub time_now : M r ℕ
  time_now w = (ok w.clock, w)

  abbrev pub settle : {A : Type 0} → Fault → A → r.Db → World r → Result A × World r
  settle answered a db w = (ok a, record w { db = db })
  settle refused a db w = (err redis_failed, w)
  settle lost a db w = (err redis_failed, record w { db = db })

  -- One round trip: a command, a script or a transaction, done as a whole or not at all.
  unfoldable pub call : {A : Type 0} → (ℕ → r.Db → A × r.Db) → M r A
  unfolding first_turn later_turns
  call f w =
      let turn = first_turn w.turns in
      let (a, db) = f w.clock w.db in
      settle turn.fault a db
        (record w { clock = w.clock + turn.elapsed; turns = later_turns w.turns })
