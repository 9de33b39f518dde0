-- ===== src/Pairing/Readback.antt =====
-- src/plaik_core/pairing.py: a code that is shown is read back.
use plaik.Prelude.{
  ℕ, zero, suc, ◌≡◌, refl, ap, sym, ◌∙◌, subst, Bool, true, false, ◌&&◌, ◌||◌, List, [], ◌∷◌, ◌++◌,
  arith, nat_beq, length, take, drop, keep, keep-append, take-append-drop,
}
use plaik.Prelude.Text.{
  all_codes, all_codes-append, ends-all, lstrip-all, rstrip, rstrip-ends, one_of, upper, digit,
}
use plaik.Prelude.Results.{ok, chain_ok, guard}
use plaik.RemoteControl.Hostname.{whitespace}
use plaik.Pairing.Code.{
  rejected, code_character, upper_code, uppercase, compact, in_alphabet, normalize_pairing_code,
  format_pairing_code,
}

-- The characters that a shown code has.
shown_character : ℕ → Bool
shown_character c = (digit c || upper c) || nat_beq c b'-'

alphabet-character : (c : ℕ) → in_alphabet c ≡ true → (digit c || upper c) ≡ true
unfolding in_alphabet one_of
alphabet-character c h = ground (arith, h)

shown-plain : (c : ℕ) → shown_character c ≡ true → whitespace c ≡ false
unfolding shown_character
shown-plain c h = ground (arith, h)

uppercase-shown : (s : List ℕ) → all_codes shown_character s ≡ true → uppercase s ≡ s
unfolding uppercase all_codes shown_character
uppercase-shown [] h = refl
uppercase-shown (c ∷ s) h =
    let rest = uppercase-shown s (ground (arith, h)) in
    let same : upper_code c ≡ c ∷ [] = ground (arith, h) in rw (same, rest)

keep-alphabet : (s : List ℕ) → all_codes in_alphabet s ≡ true → keep code_character s ≡ s
unfolding keep all_codes
keep-alphabet [] h = refl
keep-alphabet (c ∷ s) h =
    let rest = keep-alphabet s (ground (arith, h)) in
    let known : code_character c ≡ true = alphabet-character c (ground (arith, h)) in
    rw (known, rest)

all_codes-shown : (s : List ℕ) → all_codes in_alphabet s ≡ true → all_codes shown_character s ≡ true
unfolding all_codes shown_character
all_codes-shown [] h = refl
all_codes-shown (c ∷ s) h =
    let known : (digit c || upper c) ≡ true = alphabet-character c (ground (arith, h)) in
    rw (known, all_codes-shown s (ground (arith, h)))

dash-shown :
    (s : List ℕ) → all_codes shown_character s ≡ true → all_codes shown_character (b'-' ∷ s) ≡ true
unfolding all_codes shown_character
dash-shown s h = h

all_codes-take :
    (p : ℕ → Bool) (n : ℕ) (s : List ℕ) → all_codes p s ≡ true → all_codes p (take n s) ≡ true
unfolding all_codes
all_codes-take p zero s h = refl
all_codes-take p (suc n) [] h = refl
all_codes-take p (suc n) (c ∷ s) h = ground (arith, h, all_codes-take p n s (ground (arith, h)))

all_codes-drop :
    (p : ℕ → Bool) (n : ℕ) (s : List ℕ) → all_codes p s ≡ true → all_codes p (drop n s) ≡ true
unfolding all_codes
all_codes-drop p zero s h = h
all_codes-drop p (suc n) [] h = refl
all_codes-drop p (suc n) (c ∷ s) h = all_codes-drop p n s (ground (arith, h))

compact-shown :
    (n : List ℕ) → all_codes in_alphabet n ≡ true → compact (take 4 n ++ (b'-' ∷ drop 4 n)) ≡ n
unfolding compact keep
compact-shown n h =
    let first = take 4 n in
    let last = drop 4 n in
    let shown = first ++ (b'-' ∷ last) in
    let a = all_codes-take in_alphabet 4 n h in
    let b = all_codes-drop in_alphabet 4 n h in
    let plain : all_codes shown_character shown ≡ true =
      all_codes-append shown_character first (b'-' ∷ last) (all_codes-shown first a)
        (dash-shown last (all_codes-shown last b)) in
    let kept : keep code_character shown ≡ n =
      keep-append code_character first (b'-' ∷ last)
      ∙ (ap (λ (x : List ℕ). x ++ keep code_character last) (keep-alphabet first a)
          ∙ (ap (λ (x : List ℕ). first ++ x) (keep-alphabet last b) ∙ take-append-drop 4 n)) in
    ap (λ (x : List ℕ). keep code_character (uppercase (rstrip whitespace x)))
      (lstrip-all whitespace shown_character shown-plain shown plain)
    ∙ (ap (λ (x : List ℕ). keep code_character (uppercase x))
          (rstrip-ends whitespace shown
            (ends-all whitespace shown_character shown-plain shown plain))
        ∙ (ap (λ (x : List ℕ). keep code_character x) (uppercase-shown shown plain) ∙ kept))

guarded : (b c : Bool) (u : Unit {0}) → guard (b && c) rejected ≡ ok u → (b ≡ true) × (c ≡ true)
guarded b c u e = (ground (arith, e), ground (arith, e))

normalized-facts :
    (raw n : List ℕ)
    → normalize_pairing_code raw ≡ ok n
    → (nat_beq (length n) 8 ≡ true) × (all_codes in_alphabet n ≡ true)
unfolding normalize_pairing_code
normalized-facts raw n e =
    let (u, a, b) =
      chain_ok
        (guard (nat_beq (length (compact raw)) 8 && all_codes in_alphabet (compact raw)) rejected) _
        _ e in
    let same : compact raw ≡ n = ground (arith, b) in
    subst (λ (x : List ℕ). (nat_beq (length x) 8 ≡ true) × (all_codes in_alphabet x ≡ true)) same
      (guarded (nat_beq (length (compact raw)) 8) (all_codes in_alphabet (compact raw)) u a)

normalize-shown :
    (n : List ℕ)
    → nat_beq (length n) 8 ≡ true
    → all_codes in_alphabet n ≡ true
    → normalize_pairing_code (take 4 n ++ (b'-' ∷ drop 4 n)) ≡ ok n
unfolding normalize_pairing_code
normalize-shown n l h = rw (compact-shown n h, l, h)

-- A code that is shown is read back as the one that it was formed from.
pub normalize-format :
    (raw shown : List ℕ)
    → format_pairing_code raw ≡ ok shown
    → normalize_pairing_code shown ≡ normalize_pairing_code raw
unfolding format_pairing_code
normalize-format raw shown e =
    let (n, a, f) = chain_ok (normalize_pairing_code raw) _ _ e in
    let (l, h) = normalized-facts raw n a in
    let same : take 4 n ++ (b'-' ∷ drop 4 n) ≡ shown = ground (arith, f) in
    subst (λ (s : List ℕ). normalize_pairing_code s ≡ normalize_pairing_code raw) same
      (normalize-shown n l h ∙ sym a)
