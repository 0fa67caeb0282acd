-- ===== src/Base/Texts.antt =====
-- Text as the list of its code points, with the string operations that the program calls.
use Prim.Native.Nat.{ℕ, zero, suc, ◌+◌, ◌*◌, ◌-◌, ◌/◌, ◌%◌, ◌<◌, ◌≤◌}
use Prim.Native.Char.{code}
use Prim.Native.String.{String}
use mathlib.Core.Path.{◌≡◌, refl, ap, sym, ◌∙◌}
use mathlib.Core.Bool.{Bool, true, false, ◌||◌, ◌&&◌}
use mathlib.Core.Logic.{◌≢◌, ◌⊎◌, inl, inr}
use mathlib.Core.List.{List, [], ◌∷◌, ◌++◌, reverse, reverse-append, reverse-reverse}
use native.Mathlib.Omega.{arith}
use native.Mathlib.Decide.{ℕ_discrete}
use paperless_webdav.Base.Equality.{◌==◌, if◌then◌else◌, nat_eq, Bool-cases, if_cases}
use paperless_webdav.Base.Lists.{In, contains}
use paperless_webdav.Base.Numbers.{ltb, leb}

abbrev pub Text : Type 0
Text = List ℕ

-- A literal, or a text that the environment hands over, as code points.
abbrev pub codes : String → Text
codes String.[] = []
codes (String.◌∷◌ c s) = code c ∷ codes s

-- `s.startswith(p)`
unfoldable pub starts_with : Text → Text → Bool
starts_with s [] = true
starts_with [] (q ∷ p) = false
starts_with (c ∷ s) (q ∷ p) = let rest = starts_with s p in if c == q then rest else false

-- `p in s`
unfoldable pub is_infix : Text → Text → Bool
unfolding starts_with
is_infix p [] = starts_with [] p
is_infix p (c ∷ s) = starts_with (c ∷ s) p || is_infix p s

-- `s.endswith(p)`
unfoldable pub ends_with : Text → Text → Bool
unfolding starts_with
ends_with s p = starts_with (reverse s) (reverse p)

pub starts_with-append : (p s : Text) → starts_with (p ++ s) p ≡ true
unfolding starts_with
starts_with-append [] s = refl
starts_with-append (c ∷ p) s = ground (arith, starts_with-append p s)

starts_with-is_infix : (p s : Text) → starts_with s p ≡ true → is_infix p s ≡ true
unfolding is_infix
starts_with-is_infix p [] h = h
starts_with-is_infix p (c ∷ s) h = rw h

-- A piece of a text is found in it.
pub is_infix-append : (a p b : Text) → is_infix p (a ++ (p ++ b)) ≡ true
unfolding is_infix
is_infix-append [] p b = starts_with-is_infix p (p ++ b) (starts_with-append p b)
is_infix-append (c ∷ a) p b = ground (arith, is_infix-append a p b)

-- The digits of `str(n)`, on fuel.
digits : ℕ → ℕ → Text → Text
digits zero n acc = acc
digits (suc f) n acc =
    let more = digits f (n / 10) ((48 + n % 10) ∷ acc) in if ltb n 10 then (48 + n) ∷ acc else more

-- `str(n)`; a number has fewer digits than `n + 1`
unfoldable pub decimal : ℕ → Text
unfolding digits
decimal n = digits (suc n) n []

-- `int(t)` on digits, after `acc`
unfoldable pub to_int : ℕ → Text → ℕ
to_int acc [] = acc
to_int acc (c ∷ t) = to_int (acc * 10 + (c - 48)) t

-- `t.isdigit()`, for ASCII
unfoldable pub all_digits : Text → Bool
all_digits [] = true
all_digits (c ∷ t) = let rest = all_digits t in (leb 48 c && leb c 57) && rest

unfoldable pub is_digits : Text → Bool
unfolding all_digits
is_digits [] = false
is_digits (c ∷ t) = all_digits (c ∷ t)

to_int-digits : (f n : ℕ) (acc : Text) → n < f → to_int 0 (digits f n acc) ≡ to_int n acc
unfolding digits to_int
to_int-digits zero n acc h = absurd (omega arith)
to_int-digits (suc f) n acc h = elim (Bool-cases (ltb n 10)) [
  | inl e ↦ rw e (ap (λ t. to_int t acc) (omega arith))
  | inr e ↦ rw e (
      to_int-digits f (n / 10) ((48 + n % 10) ∷ acc) (ground arith)
      ∙ ap (λ t. to_int t acc) (omega arith))
]

-- Two numbers with the same digits are one number.
pub decimal-injective : (a b : ℕ) → decimal a ≡ decimal b → a ≡ b
unfolding decimal to_int
decimal-injective a b h =
    sym (to_int-digits (suc a) a [] (omega arith))
    ∙ ap (to_int 0) h
    ∙ to_int-digits (suc b) b [] (omega arith)

pub to_int-decimal : (n : ℕ) → to_int 0 (decimal n) ≡ n
unfolding decimal to_int
to_int-decimal n = to_int-digits (suc n) n [] (omega arith)

decimal_runs : decimal 720 ≡ codes "720"
unfolding decimal ℕ_discrete
decimal_runs = refl

-- `c.isspace()`, for the code points that `strip()` removes
abbrev space_codes : List ℕ
space_codes =
    9 ∷ 10 ∷ 11 ∷ 12 ∷ 13 ∷ 28 ∷ 29 ∷ 30 ∷ 31 ∷ 32 ∷ 133 ∷ 160 ∷ 5760 ∷ 8192 ∷ 8193 ∷ 8194 ∷ 8195
    ∷ 8196 ∷ 8197 ∷ 8198 ∷ 8199 ∷ 8200 ∷ 8201 ∷ 8202 ∷ 8232 ∷ 8233 ∷ 8239 ∷ 8287 ∷ 12288 ∷ []

abbrev pub is_space : ℕ → Bool
is_space c = contains c space_codes

-- `s.lstrip()`
unfoldable pub lstrip : Text → Text
lstrip [] = []
lstrip (c ∷ s) = let rest = lstrip s in if is_space c then rest else c ∷ s

-- `s.strip()`
unfoldable pub strip : Text → Text
unfolding lstrip contains
strip s = reverse (lstrip (reverse (lstrip s)))

-- No text starts with a space once it is stripped on the left.
abbrev pub StartsClean : Text → Type 0
StartsClean [] = Unit
StartsClean (c ∷ s) = is_space c ≡ false

pub lstrip-StartsClean : (s : Text) → StartsClean (lstrip s)
unfolding lstrip
lstrip-StartsClean [] = tt
lstrip-StartsClean (c ∷ s) =
    if_cases StartsClean (is_space c) _ _ (λ _. lstrip-StartsClean s) (λ e. e)

pub In-lstrip : (c : ℕ) (s : Text) → In c (lstrip s) → In c s
unfolding lstrip
In-lstrip c [] = λ m. m
In-lstrip c (d ∷ s) =
    if_cases (λ t. In c t → In c (d ∷ s)) (is_space d) _ _ (λ _ m. inr (In-lstrip c s m)) (λ _ m. m)

In-append : (c : ℕ) (s t : Text) → In c (s ++ t) → In c s ⊎ In c t
In-append c [] t m = inr m
In-append c (d ∷ s) t m = ground (arith, In-append c s t)

In-reverse : (c : ℕ) (s : Text) → In c (reverse s) → In c s
In-reverse c [] m = m
In-reverse c (d ∷ s) m =
    let m' : In c (reverse s ++ (d ∷ [])) = (rw (reverse-append (d ∷ []) s) at m) in
    ground (arith, In-append c (reverse s) (d ∷ []) m', In-reverse c s)

-- Stripping adds no character.
pub In-strip : (c : ℕ) (s : Text) → In c (strip s) → In c s
unfolding strip
In-strip c s m = In-lstrip c s (In-reverse c _ (In-lstrip c _ (In-reverse c _ m)))

pub strip-ends : (s : Text) → StartsClean (reverse (strip s))
unfolding strip
strip-ends s = rw (reverse-reverse) (lstrip-StartsClean _)

-- The digits of a number are digits.
In-digits : (f n c : ℕ) (acc : Text) → In c (digits f n acc) → ((48 ≤ c) × (c < 58)) ⊎ In c acc
unfolding digits
In-digits zero n c acc = λ m. inr m
In-digits (suc f) n c acc =
    if_cases (λ t. In c t → ((48 ≤ c) × (c < 58)) ⊎ In c acc) (ltb n 10) _ _
      (λ small m. ground arith)
      (λ big m. ground (arith, In-digits f (n / 10) c ((48 + n % 10) ∷ acc) m))

pub In-decimal : (n c : ℕ) → In c (decimal n) → (48 ≤ c) × (c < 58)
unfolding decimal
In-decimal n c m = ground (arith, In-digits (suc n) n c [] m)

pub In-middle : (c : ℕ) (s t : Text) → In c (s ++ (c ∷ t))
In-middle c [] t = inl refl
In-middle c (d ∷ s) t = inr (In-middle c s t)

-- A text without the separator is read off behind the last one.
pub split_last :
    (sep : ℕ) (a b s t : Text) → ¬ In sep s → ¬ In sep t → a ++ (sep ∷ s) ≡ b ++ (sep ∷ t) → s ≡ t
split_last sep [] [] s t hs ht e = cc
split_last sep [] (y ∷ b) s t hs ht e = absurd (hs (rw (tail_eq e) (In-middle sep b t)))
  where
    tail_eq : sep ∷ s ≡ y ∷ (b ++ (sep ∷ t)) → s ≡ b ++ (sep ∷ t)
    tail_eq p = cc
split_last sep (x ∷ a) [] s t hs ht e = absurd (ht (rw (tail_eq e) (In-middle sep a s)))
  where
    tail_eq : x ∷ (a ++ (sep ∷ s)) ≡ sep ∷ t → t ≡ a ++ (sep ∷ s)
    tail_eq p = cc
split_last sep (x ∷ a) (y ∷ b) s t hs ht e = split_last sep a b s t hs ht (cc)

all_digits-of_In : (t : Text) → ((c : ℕ) → In c t → (48 ≤ c) × (c < 58)) → all_digits t ≡ true
unfolding all_digits
all_digits-of_In [] h = refl
all_digits-of_In (c ∷ t) h =
    let (low, high) = h c (inl refl) in
    ground (arith, all_digits-of_In t (λ d m. h d (inr m)), low, high)

digits-filled : (f n : ℕ) (acc : Text) → acc ≢ [] → digits f n acc ≢ []
unfolding digits
digits-filled zero n acc h = h
digits-filled (suc f) n acc h =
    if_cases (λ t. t ≢ []) (ltb n 10) _ _ (λ _ e. ground (arith, e))
      (λ _. digits-filled f (n / 10) _ (λ e. ground (arith, e)))

decimal-filled : (n : ℕ) → decimal n ≢ []
unfolding decimal digits
decimal-filled n =
    if_cases (λ t. t ≢ []) (ltb n 10) _ _ (λ _ e. ground (arith, e))
      (λ _. digits-filled n (n / 10) _ (λ e. ground (arith, e)))

is_digits-of_all : (t : Text) → t ≢ [] → all_digits t ≡ true → is_digits t ≡ true
unfolding is_digits
is_digits-of_all [] filled h = absurd (filled refl)
is_digits-of_all (c ∷ t) filled h = h

pub is_digits-decimal : (n : ℕ) → is_digits (decimal n) ≡ true
is_digits-decimal n =
    is_digits-of_all (decimal n) (decimal-filled n) (all_digits-of_In (decimal n) (In-decimal n))
