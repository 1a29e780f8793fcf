-- ===== src/Keys/Prefix.antt =====
-- internal/base/prefix.go: NormalizePrefix. A panic is the error of the result.
use chronos_go.Common.{
  ℕ, ◌≡◌, refl, Text, Bool, true, false, ◌||◌, ◌&&◌, ltb, leb, ◌==◌, if◌then◌else◌, [], ◌∷◌, arith,
}

pub data PrefixFault : Type 0 where
  empty brace glob space : PrefixFault

pub data Checked : Type 0 where
  accepted : Text → Checked
  panics : PrefixFault → Checked

-- strings.Trim(s, ":")
unfoldable pub trim_left : Text → Text
trim_left [] = []
trim_left (c ∷ cs) = let rest = trim_left cs in if c == b':' then rest else c ∷ cs

unfoldable pub is_nil : Text → Bool
is_nil [] = true
is_nil (c ∷ cs) = false

unfoldable pub trim_right : Text → Text
trim_right [] = []
trim_right (c ∷ cs) = let rest = trim_right cs in if c == b':' && is_nil rest then [] else c ∷ rest

-- unicode.IsSpace and unicode.IsControl
unfoldable pub is_space : ℕ → Bool
is_space r =
    (leb 9 r && leb r 13)
    || r == 0x20
    || r == 0x85
    || r == 0xa0
    || r == 0x1680
    || (leb 0x2000 r && leb r 0x200a)
    || r == 0x2028
    || r == 0x2029
    || r == 0x202f
    || r == 0x205f
    || r == 0x3000

unfoldable pub is_control : ℕ → Bool
is_control r = ltb r 0x20 || (leb 0x7f r && ltb r 0xa0)

unfoldable pub is_brace : ℕ → Bool
is_brace r = r == b'{' || r == b'}'

unfoldable pub is_glob : ℕ → Bool
is_glob r = r == b'*' || r == b'?' || r == b'[' || r == b']'

-- The loop over the runes of the trimmed prefix; p is what it returns.
unfoldable pub check_runes : Text → Text → Checked
check_runes p [] = accepted p
check_runes p (r ∷ rs) =
    let rest = check_runes p rs in
    if is_brace r
    then panics brace
    else if is_glob r
    then panics glob
    else if is_space r || is_control r
    then panics space
    else rest

-- NormalizePrefix
unfoldable pub normalize_prefix : Text → Checked
normalize_prefix prefix =
    let p = trim_right (trim_left prefix) in if is_nil p then panics empty else check_runes p p

-- No rune of the text is refused.
abbrev pub AllPlain : Text → Type 0
AllPlain [] = Unit {0}
AllPlain (r ∷ rs) =
    (is_brace r ≡ false)
    × (is_glob r ≡ false)
    × ((is_space r || is_control r) ≡ false)
    × AllPlain rs

check_runes-AllPlain : (p rs q : Text) → check_runes p rs ≡ accepted q → (q ≡ p) × AllPlain rs
unfolding check_runes
check_runes-AllPlain p [] q h = (cc, tt)
check_runes-AllPlain p (r ∷ rs) q h = ground (arith, check_runes-AllPlain p rs q)

AllPlain-check_runes : (p rs : Text) → AllPlain rs → check_runes p rs ≡ accepted p
unfolding check_runes
AllPlain-check_runes p [] h = refl
AllPlain-check_runes p (r ∷ rs) h = rw (h.0, h.1, h.2) (AllPlain-check_runes p rs h.3)

-- The first and the last rune.
abbrev pub starts_with_colon : Text → Bool
starts_with_colon [] = false
starts_with_colon (c ∷ cs) = c == b':'

unfoldable pub ends_with_colon : Text → Bool
ends_with_colon [] = false
ends_with_colon (c ∷ cs) = let rest = ends_with_colon cs in if is_nil cs then c == b':' else rest

trim_left-starts : (s : Text) → starts_with_colon (trim_left s) ≡ false
unfolding trim_left
trim_left-starts [] = refl
trim_left-starts (c ∷ cs) = ground (arith, trim_left-starts cs)

trim_right-ends : (s : Text) → ends_with_colon (trim_right s) ≡ false
unfolding trim_right ends_with_colon is_nil
trim_right-ends [] = refl
trim_right-ends (c ∷ cs) = ground (arith, trim_right-ends cs)

trim_right-starts :
    (s : Text) → starts_with_colon s ≡ false → starts_with_colon (trim_right s) ≡ false
unfolding trim_right
trim_right-starts [] h = refl
trim_right-starts (c ∷ cs) h = ground arith

trim_left-id : (s : Text) → starts_with_colon s ≡ false → trim_left s ≡ s
unfolding trim_left
trim_left-id [] h = refl
trim_left-id (c ∷ cs) h = ground arith

trim_right-id : (s : Text) → ends_with_colon s ≡ false → trim_right s ≡ s
unfolding trim_right ends_with_colon is_nil
trim_right-id [] h = refl
trim_right-id (c ∷ cs) h = ground (arith, trim_right-id cs)

pub record IsPrefixText (p : Text) : Type 0 where
  pub nonempty : is_nil p ≡ false
  pub starts : starts_with_colon p ≡ false
  pub ends : ends_with_colon p ≡ false
  pub plain : AllPlain p

accepted_parts :
    (t p : Text)
    → (if is_nil t then panics empty else check_runes t t) ≡ accepted p
    → (is_nil t ≡ false) × (p ≡ t) × AllPlain t
unfolding is_nil
accepted_parts [] p h = cc
accepted_parts (c ∷ cs) p h =
    let (same, plain) = check_runes-AllPlain (c ∷ cs) (c ∷ cs) p h in (refl, same, plain)

-- A prefix that NormalizePrefix accepts comes out non-empty, without a colon at either end, and
-- without braces, glob metacharacters, whitespace and control characters.
pub normalize_prefix-IsPrefixText : (s p : Text) → normalize_prefix s ≡ accepted p → IsPrefixText p
unfolding normalize_prefix
normalize_prefix-IsPrefixText s p h =
    let t = trim_right (trim_left s) in
    let (full, same, plain) = accepted_parts t p h in
    rw same (record {
      nonempty = full;
      starts = trim_right-starts (trim_left s) (trim_left-starts s);
      ends = trim_right-ends (trim_left s);
      plain = plain;
    })

-- A prefix of that form is accepted as it stands.
pub IsPrefixText-normalize_prefix : (p : Text) → IsPrefixText p → normalize_prefix p ≡ accepted p
unfolding normalize_prefix
IsPrefixText-normalize_prefix p v =
    rw (trim_left-id p v.starts, trim_right-id p v.ends, v.nonempty)
      (AllPlain-check_runes p p v.plain)
