-- ===== src/Keys/Apart.antt =====
-- The keys of keys.go within a queue: what tells them apart.
use mathlib.Core.List.{append_assoc}
use mathlib.Core.Bool.{false≢true}
use chronos_go.Common.{
  ◌≡◌, refl, sym, ap, ◌∙◌, Text, codes, eq_text, eq_text→eq, eq_text_refl, ne→eq_text,
  append_cancel_left, Bool, true, false, Bool-cases, inl, inr, ◌++◌, arith,
}
use chronos_go.Keys.{
  Keys, queue_key_prefix, QueueKey, stream, retry, archived, completed, scheduled, task, unique,
  pdedup, group, group_result, key_of,
}

-- What follows the queue's prefix.
pub suffix_of : QueueKey → Text
suffix_of stream = codes "stream"
suffix_of retry = codes "retry"
suffix_of archived = codes "archived"
suffix_of completed = codes "completed"
suffix_of scheduled = codes "scheduled"
suffix_of (task id) = codes "t:" ++ id
suffix_of (unique s) = codes "unique:" ++ s
suffix_of (pdedup id) = codes "pdedup:" ++ id
suffix_of (group id) = codes "group:" ++ id
suffix_of (group_result id) = codes "groupresult:" ++ id

pub key_of-suffix :
    (k : Keys) (q : Text) (a : QueueKey) → key_of k q a ≡ queue_key_prefix k q ++ suffix_of a
unfolding key_of suffix_of
key_of-suffix k q stream = refl
key_of-suffix k q (task id) = append_assoc (queue_key_prefix k q) (codes "t:") id
key_of-suffix k q (unique s) = append_assoc (queue_key_prefix k q) (codes "unique:") s
key_of-suffix k q (pdedup id) = append_assoc (queue_key_prefix k q) (codes "pdedup:") id
key_of-suffix k q (group id) = append_assoc (queue_key_prefix k q) (codes "group:") id
key_of-suffix k q (group_result id) = append_assoc (queue_key_prefix k q) (codes "groupresult:") id
key_of-suffix k q _ = refl

-- Equality of purposes.
abbrev pub eq_key : QueueKey → QueueKey → Bool
eq_key stream stream = true
eq_key retry retry = true
eq_key archived archived = true
eq_key completed completed = true
eq_key scheduled scheduled = true
eq_key (task a) (task b) = eq_text a b
eq_key (unique a) (unique b) = eq_text a b
eq_key (pdedup a) (pdedup b) = eq_text a b
eq_key (group a) (group b) = eq_text a b
eq_key (group_result a) (group_result b) = eq_text a b
eq_key _ _ = false

suffix_of-injective : (a b : QueueKey) → suffix_of a ≡ suffix_of b → a ≡ b
unfolding suffix_of
suffix_of-injective stream stream e = refl
suffix_of-injective retry stream e = ground arith
suffix_of-injective retry retry e = refl
suffix_of-injective archived stream e = ground arith
suffix_of-injective archived archived e = refl
suffix_of-injective completed stream e = ground arith
suffix_of-injective completed completed e = refl
suffix_of-injective scheduled stream e = ground arith
suffix_of-injective scheduled scheduled e = refl
suffix_of-injective (task x) stream e = ground arith
suffix_of-injective (task x) (task y) e = ap task (append_cancel_left (codes "t:") e)
suffix_of-injective (unique x) stream e = ground arith
suffix_of-injective (unique x) (unique y) e = ap unique (append_cancel_left (codes "unique:") e)
suffix_of-injective (pdedup x) stream e = ground arith
suffix_of-injective (pdedup x) (pdedup y) e = ap pdedup (append_cancel_left (codes "pdedup:") e)
suffix_of-injective (group x) stream e = ground arith
suffix_of-injective (group x) (group y) e = ap group (append_cancel_left (codes "group:") e)
suffix_of-injective (group_result x) stream e = ground arith
suffix_of-injective (group_result x) (group_result y) e =
    ap group_result (append_cancel_left (codes "groupresult:") e)
suffix_of-injective _ _ e = ground arith

-- Within one queue, whatever its name, equal keys are of the same purpose and id.
pub key_of-injective : (k : Keys) (q : Text) (a b : QueueKey) → key_of k q a ≡ key_of k q b → a ≡ b
key_of-injective k q a b e = suffix_of-injective a b (
    append_cancel_left (queue_key_prefix k q) (sym (key_of-suffix k q a) ∙ e ∙ key_of-suffix k q b))

eq_key_refl : (a : QueueKey) → eq_key a a ≡ true
eq_key_refl (task x) = eq_text_refl x
eq_key_refl (unique x) = eq_text_refl x
eq_key_refl (pdedup x) = eq_text_refl x
eq_key_refl (group x) = eq_text_refl x
eq_key_refl (group_result x) = eq_text_refl x
eq_key_refl _ = refl

eq_key→eq : (a b : QueueKey) → eq_key a b ≡ true → a ≡ b
eq_key→eq stream stream h = refl
eq_key→eq retry retry h = refl
eq_key→eq archived archived h = refl
eq_key→eq completed completed h = refl
eq_key→eq scheduled scheduled h = refl
eq_key→eq (task x) (task y) h = ap task (eq_text→eq x y h)
eq_key→eq (unique x) (unique y) h = ap unique (eq_text→eq x y h)
eq_key→eq (pdedup x) (pdedup y) h = ap pdedup (eq_text→eq x y h)
eq_key→eq (group x) (group y) h = ap group (eq_text→eq x y h)
eq_key→eq (group_result x) (group_result y) h = ap group_result (eq_text→eq x y h)
eq_key→eq _ _ h = cc

-- A test of the texts is a test of the purposes.
pub eq_text-key_of :
    (k : Keys) (q : Text) (a b : QueueKey) → eq_text (key_of k q a) (key_of k q b) ≡ eq_key a b
eq_text-key_of k q a b = elim (Bool-cases (eq_key a b)) [
  | inl same ↦ rw (eq_key→eq a b same, eq_key_refl b) (eq_text_refl (key_of k q b))
  | inr other ↦ rw other (
      ne→eq_text (key_of k q a) (key_of k q b) (λ e.
        false≢true (sym other ∙ ap (eq_key a) (sym (key_of-injective k q a b e)) ∙ eq_key_refl a)))
]
