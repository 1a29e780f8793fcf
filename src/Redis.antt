-- ===== src/Redis.antt =====
-- What the code relies on of Redis and of encoding/json: an interface, with the documented
-- behaviour of each command as a law. Times are nanoseconds; a score counts the units of Rdb.Score.
use chronos_go.Common.{
  ℕ, ◌+◌, ◌≤◌, ◌<◌, ◌≡◌, ℤ, pos, Text, eq_text, Bool, true, false, ltb, ◌==◌, ◌&&◌, ◌||◌, not,
  if◌then◌else◌, Option, none, some, List, [], ◌∷◌, ◌++◌, take, drop,
}
use chronos_go.Task.{TaskMessage}
use chronos_go.ScheduleMeta.{ScheduleMeta}

-- An entry of a stream: its id, and the value of its field task_id.
pub record Entry : Type 0 where
  pub stream_id : ℕ
  pub task_id : Text

-- The commands that change the key they name.
pub data Write (D : Type 0) : Type 0 where
  hset : Text → D → Write D
  hdel : Text → Write D
  del : Write D
  -- SET with PX, in nanoseconds, and without an expiry
  set_px : Text → ℕ → Write D
  set : Text → Write D
  pexpire : ℕ → Write D
  -- EXPIRE of a set or a hash
  expire : ℕ → Write D
  zadd : ℕ → Text → Write D
  zrem : Text → Write D
  sadd : Text → Write D
  srem : Text → Write D
  xadd : Text → Write D
  xack : ℕ → Write D
  xdel : ℕ → Write D
  -- XREADGROUP with COUNT, for new entries
  xreadgroup : ℕ → Write D
  -- XCLAIM to the same group; JUSTID
  xclaim : List ℕ → Write D

-- The entries whose id is another.
unfoldable pub without : ℕ → List Entry → List Entry
without i [] = []
without i (e ∷ es) = let rest = without i es in if e.stream_id == i then rest else e ∷ rest

unfoldable pub has_entry : ℕ → List Entry → Bool
has_entry i [] = false
has_entry i (e ∷ es) = let rest = has_entry i es in if e.stream_id == i then true else rest

unfoldable pub contains_text : Text → List Text → Bool
contains_text q [] = false
contains_text q (x ∷ xs) = eq_text x q || contains_text q xs

pub record Redis : Type 1 where
  pub Db : Type 0
  -- What a key holds, of whatever type.
  pub Value : Type 0
  -- The values of hash fields.
  pub Datum : Type 0
  pub at : Db → Text → Value
  pub write : ℕ → Text → Write Datum → Db → Db
  pub effect : ℕ → Write Datum → Value → Value
  -- A command changes its own key only.
  pub at-write :
      (now : ℕ) (k j : Text) (w : Write Datum) (db : Db)
      → at (write now k w db) j ≡ (if eq_text k j then effect now w (at db j) else at db j)
  -- encoding/json, and numbers as text.
  pub encode : TaskMessage → Option Datum
  pub decode : Datum → Option TaskMessage
  pub decode-encode : (m : TaskMessage) (d : Datum) → encode m ≡ some d → decode d ≡ some m
  pub number : ℕ → Datum
  pub as_number : Datum → Option ℕ
  -- A byte slice as the base64 text of its JSON.
  pub text : Text → Datum
  pub as_text : Datum → Option Text
  pub as_text-text : (s : Text) → as_text (text s) ≡ some s
  pub as_number-number : (n : ℕ) → as_number (number n) ≡ some n
  -- A schedule's entry, whose id is no part of the JSON.
  pub meta : ScheduleMeta → Datum
  pub as_meta : Datum → Option ScheduleMeta
  pub as_meta-meta : (m : ScheduleMeta) → as_meta (meta m) ≡ some (record m { id = [] })
  -- Hashes. A missing key is an empty hash.
  pub hget : Value → Text → Option Datum
  pub hget-hset :
      (now : ℕ) (f g : Text) (d : Datum) (v : Value)
      → hget (effect now (hset f d) v) g ≡ (if eq_text f g then some d else hget v g)
  pub hget-hdel :
      (now : ℕ) (f g : Text) (v : Value)
      → hget (effect now (hdel f) v) g ≡ (if eq_text f g then none else hget v g)
  -- HKEYS
  pub hkeys : Value → List Text
  pub hkeys-hget :
      (f : Text) (d : Datum) (v : Value) → hget v f ≡ some d → contains_text f (hkeys v) ≡ true
  pub hget-del : (now : ℕ) (g : Text) (v : Value) → hget (effect now del v) g ≡ none
  -- EXISTS
  pub exists : Value → Bool
  pub exists-hset :
      (now : ℕ) (f : Text) (d : Datum) (v : Value) → exists (effect now (hset f d) v) ≡ true
  pub exists-del : (now : ℕ) (v : Value) → exists (effect now del v) ≡ false
  pub hget-absent : (f : Text) (v : Value) → exists v ≡ false → hget v f ≡ none
  -- Strings, as GET sees them at a time.
  pub get : ℕ → Value → Option Text
  pub get-set_px :
      (now later ttl : ℕ) (x : Text) (v : Value)
      → now ≤ later
      → get later (effect now (set_px x ttl) v) ≡ (if ltb later (now + ttl) then some x else none)
  pub get-set : (now later : ℕ) (x : Text) (v : Value) → get later (effect now (set x) v) ≡ some x
  pub get-pexpire :
      (now later ttl : ℕ) (x : Text) (v : Value)
      → now ≤ later
      → get now v ≡ some x
      → get later (effect now (pexpire ttl) v) ≡ (if ltb later (now + ttl) then some x else none)
  pub get-del : (now later : ℕ) (v : Value) → get later (effect now del v) ≡ none
  -- What is still there has been there: nothing comes back by waiting.
  pub get_earlier :
      (now later : ℕ) (x : Text) (v : Value)
      → now ≤ later
      → get later v ≡ some x
      → get now v ≡ some x
  -- PTTL, in nanoseconds; below zero for a missing key and for one without an expiry.
  pub pttl : ℕ → Value → ℤ
  pub get-pttl :
      (now later left : ℕ) (x : Text) (v : Value)
      → now ≤ later
      → pttl now v ≡ pos left
      → get later v ≡ some x
      → later < now + left
  -- Sorted sets: the scores, and the members in order.
  pub zscore : Value → Text → Option ℕ
  pub zscore-zadd :
      (now s : ℕ) (m x : Text) (v : Value)
      → zscore (effect now (zadd s m) v) x ≡ (if eq_text m x then some s else zscore v x)
  pub zscore-zrem :
      (now : ℕ) (m x : Text) (v : Value)
      → zscore (effect now (zrem m) v) x ≡ (if eq_text m x then none else zscore v x)
  pub zrange : Value → List Text
  -- Sets: the members, without repetition. A set without members does not exist.
  pub members : Value → List Text
  pub member-sadd :
      (now : ℕ) (m x : Text) (v : Value)
      → contains_text x (members (effect now (sadd m) v))
        ≡ (eq_text m x || contains_text x (members v))
  pub member-srem :
      (now : ℕ) (m x : Text) (v : Value)
      → contains_text x (members (effect now (srem m) v))
        ≡ (not (eq_text m x) && contains_text x (members v))
  pub members-del : (now : ℕ) (v : Value) → members (effect now del v) ≡ []
  pub members-absent : (v : Value) → exists v ≡ false → members v ≡ []
  pub exists-sadd : (now : ℕ) (m : Text) (v : Value) → exists (effect now (sadd m) v) ≡ true
  -- Setting an expiry leaves what is there.
  pub members-expire : (now ttl : ℕ) (v : Value) → members (effect now (expire ttl) v) ≡ members v
  pub exists-expire : (now ttl : ℕ) (v : Value) → exists (effect now (expire ttl) v) ≡ exists v
  pub hget-expire :
      (now ttl : ℕ) (f : Text) (v : Value) → hget (effect now (expire ttl) v) f ≡ hget v f
  -- Whether the time that EXPIRE has given a key is up. Redis deletes such a key before a command or
  -- a script touches it. A key that is not there has no such time.
  pub lapsed : ℕ → Value → Bool
  pub lapsed-absent : (now : ℕ) (v : Value) → exists v ≡ false → lapsed now v ≡ false
  pub lapsed-expire :
      (now later ttl : ℕ) (v : Value)
      → now ≤ later
      → exists v ≡ true
      → lapsed later (effect now (expire ttl) v) ≡ not (ltb later (now + ttl))
  -- Streams with the one consumer group: entries not delivered yet, and entries delivered and not
  -- acknowledged.
  pub ready : Value → List Entry
  pub unacked : Value → List Entry
  pub next_id : ℕ → Value → ℕ
  pub ready-xadd :
      (now : ℕ) (id : Text) (v : Value)
      → ready (effect now (xadd id) v)
        ≡ ready v ++ record { stream_id = next_id now v; task_id = id } ∷ []
  pub unacked-xadd :
      (now : ℕ) (id : Text) (v : Value) → unacked (effect now (xadd id) v) ≡ unacked v
  pub ready-xack : (now i : ℕ) (v : Value) → ready (effect now (xack i) v) ≡ ready v
  pub unacked-xack :
      (now i : ℕ) (v : Value) → unacked (effect now (xack i) v) ≡ without i (unacked v)
  pub ready-xdel : (now i : ℕ) (v : Value) → ready (effect now (xdel i) v) ≡ without i (ready v)
  pub unacked-xdel : (now i : ℕ) (v : Value) → unacked (effect now (xdel i) v) ≡ unacked v
  pub ready-xreadgroup :
      (now n : ℕ) (v : Value) → ready (effect now (xreadgroup n) v) ≡ drop n (ready v)
  pub unacked-xreadgroup :
      (now n : ℕ) (v : Value)
      → unacked (effect now (xreadgroup n) v) ≡ unacked v ++ take n (ready v)
  pub ready-xclaim :
      (now : ℕ) (is : List ℕ) (v : Value) → ready (effect now (xclaim is) v) ≡ ready v
  pub unacked-xclaim :
      (now : ℕ) (is : List ℕ) (v : Value) → unacked (effect now (xclaim is) v) ≡ unacked v
  -- The entries that XAUTOCLAIM finds idle for at least so long.
  pub idle_entries : ℕ → ℕ → Value → List Entry
