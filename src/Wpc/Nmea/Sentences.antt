-- ===== src/Wpc/Nmea/Sentences.antt =====
-- GGA sentences as a receiver prints them, and what netdevsim/dpll.c reads in them.
use netdevsim_dkms.Base.{
  ℕ, suc, ◌+◌, ◌≡◌, ◌≤◌, ◌<◌, refl, Bool, true, false, not, ◌&&◌, ◌||◌, none, some, List, [], ◌∷◌,
  ◌++◌, arith, ◌==◌, length, length-append,
}
use netdevsim_dkms.Wpc.Nmea.{digit, gga_field, after_gga, gga_quality}

-- Bytes that do not start, divide or end the fields of a sentence.
unfoldable pub is_plain : List ℕ → Bool
is_plain [] = true
is_plain (x ∷ xs) = not ((x == 36) || (x == 42) || (x == 44)) && is_plain xs

unfoldable pub are_plain : List (List ℕ) → Bool
are_plain [] = true
are_plain (f ∷ fs) = is_plain f && are_plain fs

-- Each field with a comma behind it.
unfoldable pub fields : List (List ℕ) → List ℕ → List ℕ
fields [] rest = rest
fields (f ∷ fs) rest = f ++ 44 ∷ fields fs rest

-- A GGA sentence with a talker of two bytes, the fields before the quality, the quality, and the rest.
unfoldable pub gga_sentence : ℕ → ℕ → List (List ℕ) → ℕ → List ℕ → List ℕ
gga_sentence t u fs q rest = 36 ∷ t ∷ u ∷ 71 ∷ 71 ∷ 65 ∷ 44 ∷ fields fs ((48 + q) ∷ rest)

-- Whether "GGA," stands three bytes further on, or there are too few bytes to tell.
abbrev pub may_be_gga : List ℕ → Bool
may_be_gga (s ∷ t ∷ u ∷ g ∷ h ∷ a ∷ c ∷ xs) = (g == 71) && (h == 71) && (a == 65) && (c == 44)
may_be_gga xs = true

-- Whether a `$` starts a GGA sentence, or one that is cut off before its kind.
unfoldable pub has_gga : List ℕ → Bool
has_gga [] = false
has_gga (x ∷ xs) = ((x == 36) && may_be_gga (x ∷ xs)) || has_gga xs

after_gga-append : (xs ys : List ℕ) → may_be_gga xs ≡ false → after_gga (xs ++ ys) ≡ none
after_gga-append [] ys h = ground (arith, h)
after_gga-append (s ∷ []) ys h = ground (arith, h)
after_gga-append (s ∷ t ∷ []) ys h = ground (arith, h)
after_gga-append (s ∷ t ∷ u ∷ []) ys h = ground (arith, h)
after_gga-append (s ∷ t ∷ u ∷ g ∷ []) ys h = ground (arith, h)
after_gga-append (s ∷ t ∷ u ∷ g ∷ h ∷ []) ys e = ground (arith, e)
after_gga-append (s ∷ t ∷ u ∷ g ∷ h ∷ a ∷ []) ys e = ground (arith, e)
after_gga-append (s ∷ t ∷ u ∷ g ∷ h ∷ a ∷ c ∷ xs) ys e = ground (arith, e)

gga_field-plain :
    (c : ℕ) (f xs : List ℕ) → is_plain f ≡ true → gga_field c (f ++ xs) ≡ gga_field c xs
unfolding gga_field is_plain
gga_field-plain c [] xs h = refl
gga_field-plain c (x ∷ f) xs h = ground (arith, h, gga_field-plain c f xs)

gga_field-fields :
    (c : ℕ) (f : List ℕ) (fs : List (List ℕ)) (xs : List ℕ)
    → are_plain (f ∷ fs) ≡ true
    → c + suc (length fs) ≡ 5
    → gga_field c (fields (f ∷ fs) xs) ≡ digit xs
unfolding are_plain fields gga_field
gga_field-fields c f [] xs h e = ground (arith, h, e, gga_field-plain c f (44 ∷ xs))
gga_field-fields c f (g ∷ fs) xs h e =
    ground
      (arith, h, e, gga_field-plain c f (44 ∷ fields (g ∷ fs) xs), gga_field-fields (suc c) g fs xs)

length-fields :
    (fs : List (List ℕ)) (rest : List ℕ) → length fs + length rest ≤ length (fields fs rest)
unfolding fields
length-fields [] rest = omega arith
length-fields (f ∷ fs) rest =
    omega (arith, length-append f (44 ∷ fields fs rest), length-fields fs rest)

length-gga_sentence :
    (t u q : ℕ) (fs : List (List ℕ)) (rest : List ℕ)
    → length fs ≡ 5
    → 13 ≤ length (gga_sentence t u fs q rest)
unfolding gga_sentence
length-gga_sentence t u q fs rest five = omega (arith, five, length-fields fs ((48 + q) ∷ rest))

gga_quality-sentence :
    (t u q : ℕ) (f : List ℕ) (fs : List (List ℕ)) (rest : List ℕ)
    → length fs ≡ 4
    → are_plain (f ∷ fs) ≡ true
    → q < 10
    → gga_quality (gga_sentence t u (f ∷ fs) q rest) ≡ some q
unfolding gga_quality gga_sentence
gga_quality-sentence t u q f fs rest five plain small =
    let xs : List ℕ = (48 + q) ∷ rest in
    ground (
      arith,
      small,
      gga_field-fields 0 f fs xs plain (omega (arith, five)),
      length-fields (f ∷ fs) xs,
      five,
    )

-- In a buffer that holds sentences of other kinds, then a GGA sentence whose five fields before the
-- quality have no `$`, `*` or comma, and then anything, the quality of the GGA sentence is read.
pub gga_quality-printed :
    (before : List ℕ) (t u q : ℕ) (fs : List (List ℕ)) (rest : List ℕ)
    → has_gga before ≡ false
    → length fs ≡ 5
    → are_plain fs ≡ true
    → q < 10
    → gga_quality (before ++ gga_sentence t u fs q rest) ≡ some q
unfolding gga_quality has_gga
gga_quality-printed [] t u q [] rest no_gga five plain small = ground (arith, five)
gga_quality-printed [] t u q (f ∷ fs) rest no_gga five plain small =
    gga_quality-sentence t u q f fs rest (omega (arith, five)) plain small
gga_quality-printed (x ∷ before) t u q fs rest no_gga five plain small =
    let sentence : List ℕ = gga_sentence t u fs q rest in
    let long = length-gga_sentence t u q fs rest five in
    let more = length-append before sentence in
    ground (
      arith,
      no_gga,
      long,
      more,
      gga_quality-printed before t u q fs rest,
      after_gga-append (x ∷ before) sentence,
    )
