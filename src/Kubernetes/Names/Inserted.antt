-- ===== src/Kubernetes/Names/Inserted.antt =====
-- How `_convert_attribute_name` changes a key: it adds underscores and lowers the letters.
use Prim.Native.Char.{Char}
use mathlib.Core.Path.{subst}
use metalk8s.Prelude.{
  String, Bool, true, false, ◌&&◌, none, lower, if◌then◌else◌, ◌≡◌, ◌⊎◌, inl, inr, refl, sym, ap,
  arith,
}
use metalk8s.Kubernetes.Names.{
  is_small, is_capital, underscore, split_words, split_capitals, without_dollar,
  convert_attribute_name,
}

-- The second text is the first one with underscores added.
pub data Inserted : String → String → Type 0 where
  done : Inserted String.[] String.[]
  kept : {c : Char} {s t : String} → Inserted s t → Inserted (String.◌∷◌ c s) (String.◌∷◌ c t)
  added : {s t : String} → Inserted s t → Inserted s (String.◌∷◌ underscore t)

-- No small letter stands right before a capital or a digit.
unfoldable pub Separated : String → Type 0
Separated String.[] = Unit
Separated (String.◌∷◌ a String.[]) = Unit
Separated (String.◌∷◌ a (String.◌∷◌ b s)) =
    (is_small a && is_capital b ≡ false) × Separated (String.◌∷◌ b s)

-- No two capitals or digits stand right before a small letter.
unfoldable pub Parted : String → Type 0
Parted String.[] = Unit
Parted (String.◌∷◌ a String.[]) = Unit
Parted (String.◌∷◌ a (String.◌∷◌ b String.[])) = Unit
Parted (String.◌∷◌ a (String.◌∷◌ b (String.◌∷◌ c s))) =
    (is_capital a && (is_capital b && is_small c) ≡ false) × Parted (String.◌∷◌ b (String.◌∷◌ c s))

Inserted-refl : (s : String) → Inserted s s
Inserted-refl String.[] = done
Inserted-refl (String.◌∷◌ c s) = kept (Inserted-refl s)

Inserted-trans : {s t u : String} → Inserted s t → Inserted t u → Inserted s u
Inserted-trans p done = p
Inserted-trans p (added q) = added (Inserted-trans p q)
Inserted-trans (kept p) (kept q) = kept (Inserted-trans p q)
Inserted-trans (added p) (kept q) = added (Inserted-trans p q)

Inserted-underscore :
    (b : Bool) (c : Char) (s t : String)
    → Inserted s t
    → Inserted (String.◌∷◌ c s) (String.◌∷◌ c (if b then String.◌∷◌ underscore t else t))
Inserted-underscore true c s t p = kept (added p)
Inserted-underscore false c s t p = kept p

split_words-Inserted : (s : String) → Inserted s (split_words s)
unfolding split_words
split_words-Inserted String.[] = done
split_words-Inserted (String.◌∷◌ a String.[]) = kept done
split_words-Inserted (String.◌∷◌ a (String.◌∷◌ b s)) =
    Inserted-underscore (is_small a && is_capital b) a (String.◌∷◌ b s) _
      (split_words-Inserted (String.◌∷◌ b s))

split_capitals-Inserted : (s : String) → Inserted s (split_capitals s)
unfolding split_capitals
split_capitals-Inserted String.[] = done
split_capitals-Inserted (String.◌∷◌ a String.[]) = kept done
split_capitals-Inserted (String.◌∷◌ a (String.◌∷◌ b String.[])) = kept (kept done)
split_capitals-Inserted (String.◌∷◌ a (String.◌∷◌ b (String.◌∷◌ c s))) =
    Inserted-underscore (is_capital a && (is_capital b && is_small c)) a
      (String.◌∷◌ b (String.◌∷◌ c s)) _ (split_capitals-Inserted (String.◌∷◌ b (String.◌∷◌ c s)))

and_false : (b : Bool) → b && false ≡ false
and_false true = refl
and_false false = refl

-- what comes behind a character, when an underscore may stand between
Separated-head :
    (a b : Char) (s : String) (test : Bool)
    → (test ≡ false → is_small a && is_capital b ≡ false)
    → Separated (String.◌∷◌ b s)
    → Separated
        (String.◌∷◌ a (if test then String.◌∷◌ underscore (String.◌∷◌ b s) else String.◌∷◌ b s))
unfolding Separated
Separated-head a b s true h hs = (and_false (is_small a), (refl, hs))
Separated-head a b s false h hs = (h refl, hs)

head-split_words :
    (b : Char) (s : String) → (t : String) × (split_words (String.◌∷◌ b s) ≡ String.◌∷◌ b t)
unfolding split_words
head-split_words b String.[] = ("", refl)
head-split_words b (String.◌∷◌ c s) = (_, refl)

head-split_capitals :
    (b : Char) (s : String) → (t : String) × (split_capitals (String.◌∷◌ b s) ≡ String.◌∷◌ b t)
unfolding split_capitals
head-split_capitals b String.[] = ("", refl)
head-split_capitals b (String.◌∷◌ c String.[]) = (_, refl)
head-split_capitals b (String.◌∷◌ c (String.◌∷◌ d s)) = (_, refl)

Separated-step :
    (a b : Char) (rest : String) (test : Bool)
    → ((t : String) × (rest ≡ String.◌∷◌ b t))
    → (test ≡ false → is_small a && is_capital b ≡ false)
    → Separated rest
    → Separated (String.◌∷◌ a (if test then String.◌∷◌ underscore rest else rest))
Separated-step a b rest test (t, e) h hs =
    subst (λ r. Separated (String.◌∷◌ a (if test then String.◌∷◌ underscore r else r))) (sym e)
      (Separated-head a b t test h (subst Separated e hs))

split_words-Separated : (s : String) → Separated (split_words s)
unfolding split_words Separated
split_words-Separated String.[] = tt
split_words-Separated (String.◌∷◌ a String.[]) = tt
split_words-Separated (String.◌∷◌ a (String.◌∷◌ b s)) =
    Separated-step a b (split_words (String.◌∷◌ b s)) (is_small a && is_capital b)
      (head-split_words b s) (λ h. h) (split_words-Separated (String.◌∷◌ b s))

split_capitals-Separated : (s : String) → Separated s → Separated (split_capitals s)
unfolding split_capitals Separated
split_capitals-Separated String.[] h = tt
split_capitals-Separated (String.◌∷◌ a String.[]) h = tt
split_capitals-Separated (String.◌∷◌ a (String.◌∷◌ b String.[])) h = h
split_capitals-Separated (String.◌∷◌ a (String.◌∷◌ b (String.◌∷◌ c s))) h =
    Separated-step a b (split_capitals (String.◌∷◌ b (String.◌∷◌ c s)))
      (is_capital a && (is_capital b && is_small c)) (head-split_capitals b (String.◌∷◌ c s))
      (λ e. h.0) (split_capitals-Separated (String.◌∷◌ b (String.◌∷◌ c s)) h.1)

both_false : (a b : Bool) → a && (b && false) ≡ false
both_false a b = ground arith

-- the second character behind the cuts: the one of the key, or an underscore
second-split_capitals :
    (b c : Char) (s : String)
    → (d : Char) × (t : String) × (split_capitals (String.◌∷◌ b (String.◌∷◌ c s))
        ≡ String.◌∷◌ b (String.◌∷◌ d t))
      × ((d ≡ c) ⊎ (d ≡ underscore))
unfolding split_capitals
second-split_capitals b c String.[] = (c, "", refl, inl refl)
second-split_capitals b c (String.◌∷◌ x s) =
    let (t, e) = head-split_capitals c (String.◌∷◌ x s) in
    cut (is_capital b && (is_capital c && is_small x)) t e
  where
    cut :
        (test : Bool) (t : String)
        → split_capitals (String.◌∷◌ c (String.◌∷◌ x s)) ≡ String.◌∷◌ c t
        → (d : Char) × (t : String) × (String.◌∷◌ b (
              if test
              then String.◌∷◌ underscore (split_capitals (String.◌∷◌ c (String.◌∷◌ x s)))
              else split_capitals (String.◌∷◌ c (String.◌∷◌ x s)))
            ≡ String.◌∷◌ b (String.◌∷◌ d t))
          × ((d ≡ c) ⊎ (d ≡ underscore))
    cut true t e = (underscore, _, refl, inr refl)
    cut false t e = (c, t, ap (λ r. String.◌∷◌ b r) e, inl refl)

Parted-step :
    (a b d : Char) (t : String) (test : Bool)
    → (test ≡ false → is_capital a && (is_capital b && is_small d) ≡ false)
    → Parted (String.◌∷◌ b (String.◌∷◌ d t))
    → Parted (
        String.◌∷◌ a (
          if test
          then String.◌∷◌ underscore (String.◌∷◌ b (String.◌∷◌ d t))
          else String.◌∷◌ b (String.◌∷◌ d t)))
unfolding Parted
Parted-step a b d t true h p = (and_false (is_capital a), (refl, p))
Parted-step a b d t false h p = (h refl, p)

split_capitals-Parted : (s : String) → Parted (split_capitals s)
unfolding split_capitals Parted
split_capitals-Parted String.[] = tt
split_capitals-Parted (String.◌∷◌ a String.[]) = tt
split_capitals-Parted (String.◌∷◌ a (String.◌∷◌ b String.[])) = tt
split_capitals-Parted (String.◌∷◌ a (String.◌∷◌ b (String.◌∷◌ c s))) =
    let (d, t, e, w) = second-split_capitals b c s in
    let test = is_capital a && (is_capital b && is_small c) in
    subst (λ r. Parted (String.◌∷◌ a (if test then String.◌∷◌ underscore r else r))) (sym e)
      (Parted-step a b d t test (uncut d w)
        (subst Parted e (split_capitals-Parted (String.◌∷◌ b (String.◌∷◌ c s)))))
  where
    uncut :
        (d : Char)
        → (d ≡ c) ⊎ (d ≡ underscore)
        → is_capital a && (is_capital b && is_small c) ≡ false
        → is_capital a && (is_capital b && is_small d) ≡ false
    uncut d (inl same) h = rw same h
    uncut d (inr cut) h = rw cut (both_false (is_capital a) (is_capital b))

-- A key that is no Python keyword and has no dollar in front becomes, in small letters, the key with
-- nothing but underscores added, in which no small letter stands right before a capital or a digit,
-- and no two of these stand right before a small letter.
pub convert_attribute_name-spaced :
    (iskeyword : String → Bool) (key : String)
    → iskeyword key ≡ false
    → without_dollar key ≡ none
    → (spaced : String) × (convert_attribute_name iskeyword key ≡ lower spaced)
      × Inserted key spaced
      × Separated spaced
      × Parted spaced
unfolding convert_attribute_name
convert_attribute_name-spaced iskeyword key k d = (
  split_capitals (split_words key),
  rw (k, d),
  Inserted-trans (split_words-Inserted key) (split_capitals-Inserted (split_words key)),
  split_capitals-Separated (split_words key) (split_words-Separated key),
  split_capitals-Parted (split_words key),
)
