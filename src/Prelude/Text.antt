-- ===== src/Prelude/Text.antt =====
-- Text as code points: the order that Python compares strings by, prefixes, and the character
-- classes that the source's regular expressions use.
use Prim.Native.Char.{code}
use Prim.Native.Nat.{ℕ}
use Prim.Native.String.{String}
use mathlib.Core.Path.{◌≡◌, refl}
use mathlib.Core.Logic.{◌↔◌}
use mathlib.Core.Bool.{Bool, true, false, ◌&&◌, ◌||◌}
use mathlib.Core.List.{List, [], ◌∷◌, ◌++◌}
use native.Mathlib.Omega.{arith}
use plaik.Prelude.Tests.{ltb, leb, nat_beq, if◌then◌else◌, Eq}
use plaik.Prelude.Lists.{length}

abbrev pub codes : String → List ℕ
codes String.[] = []
codes (String.◌∷◌ c s) = code c ∷ codes s

-- `s.startswith(p)`
unfoldable pub starts : List ℕ → List ℕ → Bool
starts [] s = true
starts (p ∷ ps) [] = false
starts (p ∷ ps) (c ∷ s) = nat_beq p c && starts ps s

abbrev pub starts_with : String → String → Bool
starts_with p s = starts (codes p) (codes s)

-- `s < t` on text.
unfoldable pub codes_lt : List ℕ → List ℕ → Bool
codes_lt s [] = false
codes_lt [] (d ∷ t) = true
codes_lt (c ∷ s) (d ∷ t) = ltb c d || (nat_beq c d && codes_lt s t)

abbrev pub text_lt : String → String → Bool
text_lt s t = codes_lt (codes s) (codes t)

pub codes_lt_irrefl : (s : List ℕ) → codes_lt s s ≡ false
unfolding codes_lt
codes_lt_irrefl [] = refl
codes_lt_irrefl (c ∷ s) = ground (arith, codes_lt_irrefl s)

pub codes_lt_negative_trans :
    (s t u : List ℕ) → codes_lt s t ≡ false → codes_lt t u ≡ false → codes_lt s u ≡ false
unfolding codes_lt
codes_lt_negative_trans s t [] h k = refl
codes_lt_negative_trans s [] (e ∷ u) h k = ground arith
codes_lt_negative_trans [] (d ∷ t) (e ∷ u) h k = ground arith
codes_lt_negative_trans (c ∷ s) (d ∷ t) (e ∷ u) h k = ground (arith, codes_lt_negative_trans s t u)

pub codes_lt_asymm : (s t : List ℕ) → codes_lt s t ≡ true → codes_lt t s ≡ false
unfolding codes_lt
codes_lt_asymm s [] h = ground arith
codes_lt_asymm [] (d ∷ t) h = refl
codes_lt_asymm (c ∷ s) (d ∷ t) h = ground (arith, codes_lt_asymm s t)

abbrev pub lower : ℕ → Bool
lower c = leb b'a' c && leb c b'z'

abbrev pub upper : ℕ → Bool
upper c = leb b'A' c && leb c b'Z'

abbrev pub digit : ℕ → Bool
digit c = leb b'0' c && leb c b'9'

-- `[A-Za-z0-9]`
abbrev pub alphanumeric : ℕ → Bool
alphanumeric c = upper c || lower c || digit c

unfoldable pub all_codes : (ℕ → Bool) → List ℕ → Bool
all_codes p [] = true
all_codes p (c ∷ s) = p c && all_codes p s

-- `^[head][tail]{least,most}$`
unfoldable pub head_tail : (ℕ → Bool) → (ℕ → Bool) → ℕ → ℕ → List ℕ → Bool
unfolding all_codes
head_tail first rest least most [] = false
head_tail first rest least most (c ∷ s) =
    first c && all_codes rest s && leb least (length s) && leb (length s) most

-- `^[a-z][a-z0-9]*(?:-[a-z0-9]+)*$`: `fresh` says that a segment has just begun.
unfoldable pub kebab_rest : Bool → List ℕ → Bool
kebab_rest fresh [] = if fresh then false else true
kebab_rest fresh (c ∷ s) =
    let segment = kebab_rest false s in
    let dash = kebab_rest true s in
    if lower c || digit c then segment else if fresh then false else nat_beq c b'-' && dash

unfoldable pub kebab : List ℕ → Bool
unfolding kebab_rest
kebab [] = false
kebab (c ∷ s) = lower c && kebab_rest false s

-- The last code passes the test.
unfoldable pub ends : (ℕ → Bool) → List ℕ → Bool
ends p [] = false
ends p (c ∷ []) = p c
ends p (c ∷ d ∷ s) = ends p (d ∷ s)

-- `s.lstrip(...)`
unfoldable pub lstrip : (ℕ → Bool) → List ℕ → List ℕ
lstrip p [] = []
lstrip p (c ∷ s) = if p c then lstrip p s else c ∷ s

abbrev pub strip_before : (ℕ → Bool) → ℕ → List ℕ → List ℕ
strip_before p c [] = if p c then [] else c ∷ []
strip_before p c (d ∷ s) = c ∷ d ∷ s

-- `s.rstrip(...)`
unfoldable pub rstrip : (ℕ → Bool) → List ℕ → List ℕ
rstrip p [] = []
rstrip p (c ∷ s) = strip_before p c (rstrip p s)

pub rstrip-ends : (p : ℕ → Bool) (s : List ℕ) → ends p s ≡ false → rstrip p s ≡ s
unfolding ends rstrip
rstrip-ends p [] h = refl
rstrip-ends p (c ∷ []) h = ground (arith, h)
rstrip-ends p (c ∷ d ∷ s) h = rw (rstrip-ends p (d ∷ s) h)

unfoldable pub codes_beq : List ℕ → List ℕ → Bool
codes_beq [] [] = true
codes_beq [] (d ∷ t) = false
codes_beq (c ∷ s) [] = false
codes_beq (c ∷ s) (d ∷ t) = nat_beq c d && codes_beq s t

pub codes_beq_iff : (s t : List ℕ) → (codes_beq s t ≡ true) ↔ (s ≡ t)
unfolding codes_beq
codes_beq_iff [] [] = ground arith
codes_beq_iff [] (d ∷ t) = ground arith
codes_beq_iff (c ∷ s) [] = ground arith
codes_beq_iff (c ∷ s) (d ∷ t) = ground (arith, codes_beq_iff s t)

instance abbrev pub codes_eq : Eq (List ℕ)
unfolding codes_beq
codes_eq = record { beq = codes_beq; beq_iff = codes_beq_iff }

-- What fails a test at each code fails it at the last.
pub ends-all :
    (p q : ℕ → Bool)
    → ((c : ℕ) → q c ≡ true → p c ≡ false)
    → (s : List ℕ) → all_codes q s ≡ true
    → ends p s ≡ false
unfolding ends all_codes
ends-all p q w [] h = refl
ends-all p q w (c ∷ []) h = w c (ground (arith, h))
ends-all p q w (c ∷ d ∷ s) h = ends-all p q w (d ∷ s) (ground (arith, h))

pub lstrip-all :
    (p q : ℕ → Bool)
    → ((c : ℕ) → q c ≡ true → p c ≡ false)
    → (s : List ℕ) → all_codes q s ≡ true
    → lstrip p s ≡ s
unfolding lstrip all_codes
lstrip-all p q w [] h = refl
lstrip-all p q w (c ∷ s) h = rw (w c (ground (arith, h)))

pub all_codes-append :
    (p : ℕ → Bool) (s t : List ℕ)
    → all_codes p s ≡ true
    → all_codes p t ≡ true
    → all_codes p (s ++ t) ≡ true
unfolding all_codes
all_codes-append p [] t h k = k
all_codes-append p (c ∷ s) t h k = ground (arith, h, all_codes-append p s t (ground (arith, h)) k)

-- `c in s`
unfoldable pub one_of : ℕ → List ℕ → Bool
one_of c [] = false
one_of c (d ∷ s) = nat_beq c d || one_of c s
