-- ===== src/Keys/Queues.antt =====
-- Keys of keys.go across queues, and the cluster slot that the keys of one queue share.
use mathlib.Core.List.{append_assoc}
use chronos_go.Common.{
  ℕ, ◌≡◌, ◌≢◌, refl, sym, ap, ◌∙◌, Text, codes, append_cancel_left, false, ◌==◌, [], ◌∷◌, ◌++◌,
  arith,
}
use chronos_go.Keys.{
  Keys, queue_key_prefix, QueueKey, key_of, queues_key, paused_key, schedules_key, leader_key,
  schedule_last_fired_key,
}
use chronos_go.Keys.Apart.{suffix_of, key_of-suffix, key_of-injective}
use chronos_go.Keys.Prefix.{AllPlain, IsPrefixText, is_brace}

-- A text without the rune c.
abbrev pub Lacks : ℕ → Text → Type 0
Lacks c [] = Unit {0}
Lacks c (x ∷ xs) = ((x == c) ≡ false) × Lacks c xs

Lacks-append : (c : ℕ) (s t : Text) → Lacks c s → Lacks c t → Lacks c (s ++ t)
Lacks-append c [] t p q = q
Lacks-append c (x ∷ s) t p q = (p.0, Lacks-append c s t p.1 q)

-- Two texts agree up to the first c where they agree at all.
split_at_first :
    (c : ℕ) (s t : Text) {u v : Text}
    → Lacks c s
    → Lacks c t
    → s ++ c ∷ u ≡ t ++ c ∷ v
    → (s ≡ t) × (u ≡ v)
split_at_first c [] [] p q e = (refl, cc)
split_at_first c [] (y ∷ t) p q e = ground (arith, q.0)
split_at_first c (x ∷ s) [] p q e = ground (arith, p.0)
split_at_first c (x ∷ s) (y ∷ t) {u} {v} p q e =
    let tails : s ++ c ∷ u ≡ t ++ c ∷ v = cc in
    let (same, after) = split_at_first c s t p.1 q.1 tails in (cc, after)

-- A queue key with its parts set out.
key_of_lem :
    (k : Keys) (q : Text) (a : QueueKey)
    → key_of k q a ≡ k.prefix ++ b':' ∷ b'{' ∷ (q ++ b'}' ∷ b':' ∷ suffix_of a)
unfolding queue_key_prefix
key_of_lem k q a = key_of-suffix k q a ∙ simp append_assoc

-- For queue names without a closing brace, equal keys are of the same queue, purpose and id.
pub key_of-queue :
    (k : Keys) (q r : Text) (a b : QueueKey)
    → Lacks b'}' q
    → Lacks b'}' r
    → key_of k q a ≡ key_of k r b
    → (q ≡ r) × (a ≡ b)
key_of-queue k q r a b p p' e =
    let parts = append_cancel_left k.prefix (sym (key_of_lem k q a) ∙ e ∙ key_of_lem k r b) in
    let tails : q ++ b'}' ∷ (b':' ∷ suffix_of a) ≡ r ++ b'}' ∷ (b':' ∷ suffix_of b) = cc parts in
    let (same, _) = split_at_first b'}' q r p p' tails in
    (same, key_of-injective k r a b (rw same at e))

-- No key of a queue is the key of the queue index, of the paused queues, of the schedules or of
-- the leader.
pub key_of-ne-global :
    (k : Keys) (q : Text) (a : QueueKey)
    → (key_of k q a ≢ queues_key k)
      × (key_of k q a ≢ paused_key k)
      × (key_of k q a ≢ schedules_key k)
      × (key_of k q a ≢ leader_key k)
unfolding queues_key paused_key schedules_key leader_key
key_of-ne-global k q a =
    let start = key_of_lem k q a in
    (
      λ e. ground (arith, append_cancel_left k.prefix (sym start ∙ e)),
      λ e. ground (arith, append_cancel_left k.prefix (sym start ∙ e)),
      λ e. ground (arith, append_cancel_left k.prefix (sym start ∙ e)),
      λ e. ground (arith, append_cancel_left k.prefix (sym start ∙ e)),
    )

last_fired_key_lem :
    (k : Keys) (id : Text)
    → schedule_last_fired_key k id ≡ k.prefix ++ (codes ":sched:" ++ (id ++ codes ":last"))
unfolding schedule_last_fired_key
last_fired_key_lem k id = simp append_assoc

-- The key of a schedule's last-fired time is no key of a queue, and is not the index of the queues.
pub last_fired_key-ne :
    (k : Keys) (id q : Text) (a : QueueKey)
    → (schedule_last_fired_key k id ≢ key_of k q a) × (schedule_last_fired_key k id ≢ queues_key k)
unfolding queues_key
last_fired_key-ne k id q a = (
  λ e.
      ground
        (arith, append_cancel_left k.prefix (sym (last_fired_key_lem k id) ∙ e ∙ key_of_lem k q a)),
  λ e. ground (arith, append_cancel_left k.prefix (sym (last_fired_key_lem k id) ∙ e)),
)

-- Nor is it the key of the schedules.
pub last_fired_key-ne-schedules :
    (k : Keys) (id : Text) → schedule_last_fired_key k id ≢ schedules_key k
unfolding schedules_key
last_fired_key-ne-schedules k id e =
    ground (arith, append_cancel_left k.prefix (sym (last_fired_key_lem k id) ∙ e))

AllPlain-Lacks : (p : Text) → AllPlain p → Lacks b'{' p
unfolding is_brace
AllPlain-Lacks [] h = tt
AllPlain-Lacks (r ∷ rs) h = (ground (arith, h.0), AllPlain-Lacks rs h.3)

-- How Redis Cluster picks the part of a key that it hashes: what stands between the first opening
-- brace and the first closing brace behind it, if that is not empty.
module _ (hash_tag : Text → Text)
    (tagged : (before tag after : Text)
      → Lacks b'{' before
      → Lacks b'}' tag
      → tag ≢ []
      → hash_tag (before ++ b'{' ∷ (tag ++ b'}' ∷ after)) ≡ tag) where
  -- Under an accepted prefix every key of a queue is hashed by the queue's name, so the keys of one
  -- script share a slot.
  pub hash_tag-key_of :
      (k : Keys) (q : Text) (a : QueueKey)
      → IsPrefixText k.prefix
      → Lacks b'}' q
      → q ≢ []
      → hash_tag (key_of k q a) ≡ q
  hash_tag-key_of k q a v closed full =
      let after = b':' ∷ suffix_of a in
      ap hash_tag
        (key_of_lem k q a ∙ sym (append_assoc k.prefix (b':' ∷ []) (b'{' ∷ (q ++ b'}' ∷ after))))
      ∙ tagged (k.prefix ++ b':' ∷ []) q after
          (Lacks-append b'{' k.prefix (b':' ∷ []) (AllPlain-Lacks k.prefix v.plain) (refl, tt))
          closed full
