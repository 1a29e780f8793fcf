-- ===== src/Examples/Store.antt =====
-- A small store with the laws of Redis: each key of a function has a cell.
mod Cells
unfoldable pub use Cells.*
use chronos_go.Common.{
  ℕ, ◌+◌, ◌≡◌, ◌≤◌, refl, sym, subst, ap, Text, eq_text, eq_text→eq, eq_text_refl, Bool, true,
  false, Bool-cases, ltb, not, ◌||◌, ◌&&◌, if◌then◌else◌, Option, none, some, List, [], ◌∷◌, ◌++◌,
  take, drop, inl, inr, arith,
}
use chronos_go.Task.{TaskMessage}
use chronos_go.Redis.{
  Redis, Entry, Write, hset, hdel, del, set_px, set, pexpire, expire, zadd, zrem, sadd, srem, xadd,
  xack, xdel, xreadgroup, xclaim, without, contains_text,
}

unfoldable pub store : Redis
unfolding apply lookup is_there still contains_text
store = record {
  Db = Text → Cell;
  Value = Cell;
  Datum = Datum;
  at = λ db k. db k;
  write = λ now k w db j. if eq_text k j then apply now w (db j) else db j;
  effect = apply;
  at-write = λ now k j w db. refl;
  encode = λ m. some (message m);
  decode = message_of;
  decode-encode = decode-encode;
  number = number;
  as_number = λ d. elim d [ number n ↦ some n | _ ↦ none ];
  text = text;
  as_text = λ d. elim d [ text s ↦ some s | _ ↦ none ];
  as_text-text = λ s. refl;
  as_number-number = λ n. refl;
  meta = λ m. schedule (record m { id = [] });
  as_meta = λ d. elim d [ schedule m ↦ some m | _ ↦ none ];
  as_meta-meta = λ m. refl;
  hget = λ c f. lookup f c.fields;
  hget-hset = λ now f g d v. refl;
  hget-hdel = λ now f g v. lookup-forget f g v.fields;
  hkeys = λ c. keys c.fields;
  hkeys-hget = λ f d v h. lookup-keys f d v.fields h;
  hget-del = λ now g v. refl;
  exists = is_there;
  exists-hset = λ now f d v. refl;
  exists-del = λ now v. refl;
  hget-absent = λ f v h. has_any-fields f v.fields v.elements h;
  get = λ now c. still now c.string;
  get-set_px = λ now later ttl x v after. refl;
  get-set = λ now later x v. refl;
  get-pexpire = λ now later ttl x v after held. still-prolong now later ttl x v.string held;
  get-del = λ now later v. refl;
  get_earlier = λ now later x v after held. still_earlier now later x v.string after held;
  pttl = λ now c. time_left now c.string;
  get-pttl = λ now later left x v after timed there.
      still-time_left now later left x v.string after timed there;
  zscore = λ c m. lookup m c.scores;
  zscore-zadd = λ now s m x v. lookup-zadd m x s v.scores;
  zscore-zrem = λ now m x v. lookup-forget m x v.scores;
  zrange = λ c. keys c.scores;
  members = λ c. c.elements;
  member-sadd = λ now m x v. contains_text-sadd m x v.elements;
  member-srem = λ now m x v. contains_text-remove m x v.elements;
  members-del = λ now v. refl;
  members-absent = λ v h. has_any-elements v.fields v.elements h;
  exists-sadd = λ now m v. has_any_sadd v.fields m (remove m v.elements);
  members-expire = λ now ttl v. refl;
  exists-expire = λ now ttl v. refl;
  hget-expire = λ now ttl f v. refl;
  lapsed = is_lapsed;
  lapsed-absent = lapsed-not_there;
  lapsed-expire = λ now later ttl v after there. lapsed-deadline now later ttl v there;
  ready = λ c. c.fresh;
  unacked = λ c. c.pending;
  next_id = λ now c. c.last + 1;
  ready-xadd = λ now id v. refl;
  unacked-xadd = λ now id v. refl;
  ready-xack = λ now i v. refl;
  unacked-xack = λ now i v. refl;
  ready-xdel = λ now i v. refl;
  unacked-xdel = λ now i v. refl;
  ready-xreadgroup = λ now n v. refl;
  unacked-xreadgroup = λ now n v. refl;
  ready-xclaim = λ now is v. refl;
  unacked-xclaim = λ now is v. refl;
  idle_entries = λ idle now c. c.pending;
}
