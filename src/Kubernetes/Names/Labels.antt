-- ===== src/Kubernetes/Names/Labels.antt =====
-- The characters of the names of worker/executors/kubernetes/names.py.
use Prim.Native.Char.{Char}
use text.Mathlib.TextEquality.{eq_iff}
use text.Mathlib.TextLemmas.{cons≢nil}
use autodeploy_platform.Prelude.{
  ℕ, zero, suc, String, ◌≡◌, refl, ◌⊎◌, inl, inr, Bool, true, false, ◌&&◌, ◌||◌, not, if◌then◌else◌,
  truthy, text_eq, Bool-cases, not-true, slice_text, is_dash, is_lower_alnum, all_chars, lower,
}
use autodeploy_platform.Kubernetes.Names.{
  dash_runs, lstrip_dashes, push_unless_dash, rstrip_dashes, is_foreign, or_fallback, dns_slug,
}

-- [a-z0-9-]
abbrev pub is_label_char : Char → Bool
is_label_char c = is_lower_alnum c || is_dash c

-- The first character, and the last, is no dash.
unfoldable pub starts_well : String → Bool
starts_well String.[] = false
starts_well (String.◌∷◌ c s) = not (is_dash c)

unfoldable pub ends_well : String → Bool
ends_well String.[] = false
ends_well (String.◌∷◌ c String.[]) = not (is_dash c)
ends_well (String.◌∷◌ c (String.◌∷◌ d s)) = ends_well (String.◌∷◌ d s)

-- A label of RFC 1123, but for its length.
pub record IsLabel (s : String) : Type 0 where
  pub chars : all_chars is_label_char s ≡ true
  pub first : starts_well s ≡ true
  pub last : ends_well s ≡ true

both : (a b : Bool) → (a && b) ≡ true → (a ≡ true) × (b ≡ true)
both true b h = (refl, h)
both false b h = cc

module _ (test p : Char → Bool) (dash : p "-" ≡ true) where
  push-chars :
      (t inside : Bool) (c : Char) (rest : String)
      → (t || p c) ≡ true
      → all_chars p rest ≡ true
      → all_chars p
          (if t then (if inside then rest else String.◌∷◌ "-" rest) else String.◌∷◌ c rest)
        ≡ true
  unfolding all_chars
  push-chars true true c rest h k = k
  push-chars true false c rest h k = rw (dash, k) refl
  push-chars false inside c rest h k = rw (h, k) refl

  dash_runs-chars :
      (inside : Bool) (s : String)
      → all_chars (λ c. test c || p c) s ≡ true
      → all_chars p (dash_runs test inside s) ≡ true
  unfolding dash_runs all_chars
  dash_runs-chars inside String.[] h = refl
  dash_runs-chars inside (String.◌∷◌ c s) h =
      let (head, tail) = both _ _ h in
      push-chars (test c) inside c _ head (dash_runs-chars (test c) s tail)

module _ (p : Char → Bool) where
  all_chars-always : ((c : Char) → p c ≡ true) → (s : String) → all_chars p s ≡ true
  unfolding all_chars
  all_chars-always h String.[] = refl
  all_chars-always h (String.◌∷◌ c s) = rw (h c, all_chars-always h s) refl

  lstrip_dashes-chars : (s : String) → all_chars p s ≡ true → all_chars p (lstrip_dashes s) ≡ true
  unfolding all_chars lstrip_dashes
  lstrip_dashes-chars String.[] h = refl
  lstrip_dashes-chars (String.◌∷◌ c s) h = elim (Bool-cases (is_dash c)) [
    | inl dash ↦ rw dash (lstrip_dashes-chars s (both _ _ h).1)
    | inr other ↦ rw other h
  ]

  push_unless_dash-chars :
      (c : Char) (s : String)
      → p c ≡ true
      → all_chars p s ≡ true
      → all_chars p (push_unless_dash c s) ≡ true
  unfolding all_chars push_unless_dash
  push_unless_dash-chars c String.[] h k = elim (Bool-cases (is_dash c)) [
    | inl dash ↦ rw dash refl
    | inr other ↦ rw (other, h) refl
  ]
  push_unless_dash-chars c (String.◌∷◌ d s) h k = rw h k

  rstrip_dashes-chars : (s : String) → all_chars p s ≡ true → all_chars p (rstrip_dashes s) ≡ true
  unfolding all_chars rstrip_dashes
  rstrip_dashes-chars String.[] h = refl
  rstrip_dashes-chars (String.◌∷◌ c s) h =
      let (head, tail) = both _ _ h in push_unless_dash-chars c _ head (rstrip_dashes-chars s tail)

  slice_text-chars :
      (n : ℕ) (s : String) → all_chars p s ≡ true → all_chars p (slice_text n s) ≡ true
  unfolding all_chars slice_text
  slice_text-chars n String.[] h = refl
  slice_text-chars zero (String.◌∷◌ c s) h = refl
  slice_text-chars (suc n) (String.◌∷◌ c s) h =
      let (head, tail) = both (p c) (all_chars p s) h in rw (head, slice_text-chars n s tail) refl

lstrip_dashes-cases : (s : String) → (lstrip_dashes s ≡ "") ⊎ (starts_well (lstrip_dashes s) ≡ true)
unfolding lstrip_dashes starts_well
lstrip_dashes-cases String.[] = inl refl
lstrip_dashes-cases (String.◌∷◌ c s) = elim (Bool-cases (is_dash c)) [
  | inl dash ↦ rw dash (lstrip_dashes-cases s)
  | inr other ↦ inr (rw other (rw other refl))
]

push_unless_dash-first :
    (c : Char) (s : String) → is_dash c ≡ false → starts_well (push_unless_dash c s) ≡ true
unfolding starts_well push_unless_dash
push_unless_dash-first c String.[] h = rw h (rw h refl)
push_unless_dash-first c (String.◌∷◌ d s) h = rw h refl

rstrip_dashes-first : (s : String) → starts_well s ≡ true → starts_well (rstrip_dashes s) ≡ true
unfolding starts_well rstrip_dashes
rstrip_dashes-first String.[] h = h
rstrip_dashes-first (String.◌∷◌ c s) h = push_unless_dash-first c (rstrip_dashes s) (not-true _ h)

slice_text-first :
    (n : ℕ) (s : String) → starts_well s ≡ true → starts_well (slice_text (suc n) s) ≡ true
unfolding starts_well slice_text
slice_text-first n String.[] h = h
slice_text-first n (String.◌∷◌ c s) h = h

-- What is left of a text without its last dashes is empty, or ends in no dash.
push_unless_dash-last :
    (c : Char) (s : String)
    → (s ≡ "") ⊎ (ends_well s ≡ true)
    → (push_unless_dash c s ≡ "") ⊎ (ends_well (push_unless_dash c s) ≡ true)
unfolding ends_well push_unless_dash
push_unless_dash-last c String.[] h = elim (Bool-cases (is_dash c)) [
  | inl dash ↦ inl (rw dash refl)
  | inr other ↦ inr (rw other (rw other refl))
]
push_unless_dash-last c (String.◌∷◌ d s) (inl empty) = elim (cons≢nil empty) [ ]
push_unless_dash-last c (String.◌∷◌ d s) (inr last) = inr last

rstrip_dashes-last : (s : String) → (rstrip_dashes s ≡ "") ⊎ (ends_well (rstrip_dashes s) ≡ true)
unfolding rstrip_dashes
rstrip_dashes-last String.[] = inl refl
rstrip_dashes-last (String.◌∷◌ c s) =
    push_unless_dash-last c (rstrip_dashes s) (rstrip_dashes-last s)

truthy-first : (s : String) → starts_well s ≡ true → truthy s ≡ true
unfolding starts_well
truthy-first String.[] h = cc
truthy-first (String.◌∷◌ c s) h = elim (Bool-cases (text_eq (String.◌∷◌ c s) "")) [
  | inl same ↦ elim (cons≢nil ((eq_iff (String.◌∷◌ c s) "").0 same)) [ ]
  | inr other ↦ rw other refl
]

or_fallback-keeps :
    (P : String → Type 0) (s fallback : String)
    → (truthy s ≡ true → P s)
    → P fallback
    → P (or_fallback s fallback)
or_fallback-keeps P s fallback h k = elim (Bool-cases (truthy s)) [
  | inl full ↦ rw full (h full)
  | inr empty ↦ rw empty k
]

foreign_or_label : (b d : Bool) → (not b || (d || b)) ≡ true
foreign_or_label true true = refl
foreign_or_label true false = refl
foreign_or_label false d = refl

empty_text : {P : Type 0} (s : String) → s ≡ "" → truthy s ≡ true → P
empty_text s e = rw e (λ h. cc)

-- The slug before it is cut.
module _ (value : String) where
  abbrev whole_slug : String
  whole_slug =
      lstrip_dashes
        (rstrip_dashes (dash_runs is_dash false (dash_runs is_foreign false (lower value))))

  whole_slug-chars : all_chars is_label_char whole_slug ≡ true
  whole_slug-chars =
      let passed =
        dash_runs-chars is_foreign (λ c. is_dash c || is_label_char c) refl false (lower value)
          (all_chars-always _ (λ c. foreign_or_label (is_label_char c) (is_dash c))
            (lower value)) in
      lstrip_dashes-chars _ _
        (rstrip_dashes-chars _ _ (dash_runs-chars is_dash is_label_char refl false _ passed))

  whole_slug-first : truthy whole_slug ≡ true → starts_well whole_slug ≡ true
  whole_slug-first full = elim (lstrip_dashes-cases _) [
    | inl empty ↦ empty_text _ empty full
    | inr first ↦ first
  ]

cut-IsLabel :
    (n : ℕ) (s : String)
    → all_chars is_label_char s ≡ true
    → starts_well s ≡ true
    → IsLabel (rstrip_dashes (slice_text (suc n) s))
cut-IsLabel n s chars first =
    let start = rstrip_dashes-first _ (slice_text-first n s first) in
    record {
      chars = rstrip_dashes-chars _ _ (slice_text-chars _ (suc n) s chars);
      first = start;
      last = elim (rstrip_dashes-last (slice_text (suc n) s)) [
        | inl empty ↦ empty_text _ empty (truthy-first _ start)
        | inr last ↦ last
      ];
    }

-- Where the fallback has only a-z, 0-9 and dashes and starts with no dash, and at least one
-- character is allowed, a slug is a DNS label: it has only those characters, is not empty, and
-- neither starts nor ends with a dash. This holds of every text that the slug is made from.
pub dns_slug-IsLabel :
    (value fallback : String) (n : ℕ)
    → all_chars is_label_char fallback ≡ true
    → starts_well fallback ≡ true
    → IsLabel (dns_slug value fallback (suc n))
unfolding dns_slug
dns_slug-IsLabel value fallback n chars first =
    let whole = or_fallback (whole_slug value) fallback in
    let cut =
      cut-IsLabel n whole
        (or_fallback-keeps (λ s. all_chars is_label_char s ≡ true) _ _
          (λ full. whole_slug-chars value) chars)
        (or_fallback-keeps (λ s. starts_well s ≡ true) _ _ (whole_slug-first value) first) in
    rw (truthy-first _ cut.first) cut
