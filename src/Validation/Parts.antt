-- ===== src/Validation/Parts.antt =====
-- Where a text that another contains, or ends with, stands in it.
use Prim.Native.Char.{code}
use Prim.Native.String
use text.Mathlib.TextLemmas.{nil-append, cons-append}
use text.Mathlib.TextPositions.{eq_refl}
use autodeploy_platform.Prelude.{
  String, ◌≡◌, ◌≢◌, refl, true, false, starts_with, contains, ends_with, ==_refl, arith,
}

starts_with-append : (p s : String) → starts_with (String.◌++◌ p s) p ≡ true
unfolding starts_with
starts_with-append String.[] s = refl
starts_with-append (String.◌∷◌ c p) s =
    rw (cons-append c p s, ==_refl (code c)) (starts_with-append p s)

contains_start : (s p : String) → starts_with s p ≡ true → contains s p ≡ true
unfolding contains
contains_start String.[] p h = h
contains_start (String.◌∷◌ c s) p h = rw h refl

pub contains-append :
    (before p after : String) → contains (String.◌++◌ before (String.◌++◌ p after)) p ≡ true
unfolding contains
contains-append String.[] p after =
    rw (nil-append (String.◌++◌ p after))
      (contains_start (String.◌++◌ p after) p (starts_with-append p after))
contains-append (String.◌∷◌ c before) p after =
    rw (cons-append c before (String.◌++◌ p after))
      (let later = contains-append before p after in ground arith)

ends_with_self : (p : String) → ends_with p p ≡ true
unfolding ends_with starts_with
ends_with_self String.[] = refl
ends_with_self (String.◌∷◌ c p) = rw (eq_refl (String.◌∷◌ c p)) refl

ends_with-append : (before p : String) → ends_with (String.◌++◌ before p) p ≡ true
unfolding ends_with
ends_with-append String.[] p = rw (nil-append p) (ends_with_self p)
ends_with-append (String.◌∷◌ c before) p =
    rw (cons-append c before p) (let later = ends_with-append before p in ground arith)

-- What a text does not contain stands nowhere in it, and what it does not end with is not its end.
module _ (s part : String) where
  pub contains-false :
      contains s part ≡ false
      → (before after : String) → s ≢ String.◌++◌ before (String.◌++◌ part after)
  contains-false h before after e =
      let found = contains-append before part after in let same = rw e at h in cc

  pub ends_with-false : ends_with s part ≡ false → (before : String) → s ≢ String.◌++◌ before part
  ends_with-false h before e =
      let found = ends_with-append before part in let same = rw e at h in cc
